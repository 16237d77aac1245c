-- ===== src/Contracts/Query.antt =====
-- libs/contracts/src/chatbot_contracts/query.py and escalation.py. A float is a value of `F`; a bound on
-- a number that pydantic checks is a predicate.
use ai_chatbot.Base.{ℕ, String, Bool, Option, List, ◌&&◌, leb}
use ai_chatbot.Base.Dict.{Dict}
use ai_chatbot.Contracts.OnlineEnums.{CleanOrigin, ConfidenceLevel, EscalationStatus, EventType}
use ai_chatbot.Contracts.Tools.{ExternalItem, ToolCallRecord}

pub record Attachment : Type 0 where
  pub schema_version : String
  pub producer : String
  pub request_id : String
  pub attachment_id : String
  pub media_type : String
  pub uri : String
  pub sha256 : String
  pub size_bytes : ℕ

pub record AskRequest : Type 0 where
  pub schema_version : String
  pub producer : String
  pub request_id : String
  pub pseudo_user : String
  pub conversation_id : String
  pub question : String
  pub attachments : List Attachment

pub record VisionRequest : Type 0 where
  pub schema_version : String
  pub producer : String
  pub request_id : String
  pub attachment : Attachment

pub record VisionResult (F : Type 0) : Type 0 where
  pub schema_version : String
  pub producer : String
  pub request_id : String
  pub text : String
  pub latex : List String
  pub detected_kind : String
  pub confidence : F

pub record CleanRequest : Type 0 where
  pub schema_version : String
  pub producer : String
  pub request_id : String
  pub text : String
  pub origin : CleanOrigin

pub record CleanResult : Type 0 where
  pub schema_version : String
  pub producer : String
  pub request_id : String
  pub text : String
  pub pii_hits : ℕ
  pub injection_hits : ℕ
  pub dropped : Bool

pub record EmbedRequest : Type 0 where
  pub schema_version : String
  pub producer : String
  pub request_id : String
  pub texts : List String
  pub kb_version : ℕ

pub record EmbedResult (F : Type 0) : Type 0 where
  pub schema_version : String
  pub producer : String
  pub request_id : String
  pub vectors : List (List F)
  pub embedding_model : String

pub record RetrievalRequest (F : Type 0) : Type 0 where
  pub schema_version : String
  pub producer : String
  pub request_id : String
  pub question : String
  pub query_vector : List F
  pub kb_version : ℕ
  pub k : ℕ
  pub filters : Dict String

pub record RetrievedChunk (F : Type 0) : Type 0 where
  pub chunk_id : String
  pub doc_version : String
  pub page_start : ℕ
  pub page_end : ℕ
  pub text : String
  pub dense : Option F
  pub lexical : Option F
  pub rerank : Option F

pub record RetrievalResult (F : Type 0) : Type 0 where
  pub schema_version : String
  pub producer : String
  pub request_id : String
  pub chunks : List (RetrievedChunk F)
  pub sufficiency : F
  pub timings_ms : Dict F

pub record Citation : Type 0 where
  pub chunk_id : Option String
  pub url : Option String
  pub doc_version : Option String
  pub page : Option ℕ

pub record Turn : Type 0 where
  pub question : String
  pub answer : String

pub record GenerationRequest (F : Type 0) : Type 0 where
  pub schema_version : String
  pub producer : String
  pub request_id : String
  pub question : String
  pub contexts : List (RetrievedChunk F)
  pub model_version : String
  pub prompt_version : String
  pub external_contexts : List (ExternalItem F)
  pub history : List Turn

pub record GenerationResult (F : Type 0) : Type 0 where
  pub schema_version : String
  pub producer : String
  pub request_id : String
  pub answer : String
  pub citations : List Citation
  pub tokens_in : ℕ
  pub tokens_out : ℕ
  pub tool_calls : List (ToolCallRecord F)
  pub timings_ms : Dict F

pub record EscalationTicket (F : Type 0) : Type 0 where
  pub schema_version : String
  pub producer : String
  pub request_id : String
  pub ticket_id : String
  pub pseudo_user : String
  pub question : String
  pub confidence : F
  pub status : EscalationStatus
  pub created_at : ℕ
  pub context_ids : List String
  pub external_results : List (ExternalItem F)
  pub expert : Option String
  pub answered_at : Option ℕ
  pub answer : Option String

pub record TicketQuery : Type 0 where
  pub schema_version : String
  pub producer : String
  pub request_id : String

pub record StreamEvent : Type 0 where
  pub schema_version : String
  pub producer : String
  pub request_id : String
  pub event_type : EventType
  pub text : String
  pub citations : List Citation
  pub level : Option ConfidenceLevel
  pub conversation_id : Option String

-- `Field(default=8, ge=1, le=50)`
abbrev pub has_valid_k : {F : Type 0} → RetrievalRequest F → Bool
has_valid_k request = leb 1 request.k && leb request.k 50
