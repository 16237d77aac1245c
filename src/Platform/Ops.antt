-- ===== src/Platform/Ops.antt =====
-- The tables of the schemas ops and ingest in libs/platform/src/chatbot_platform/sql.py that the
-- retention and the lineage sweeps work on, one record to a table. A float is a value of `F`, a
-- JSON value one of `J`. A key that the database counts up is a number.
pub mod Storage
pub mod Retention
pub mod Lineage
pub mod Flagged
pub mod Kept
use ai_chatbot.Base.{ℕ, String, Bool, Option, List}
use ai_chatbot.Platform.Models.{StoredChunk}

pub record Interaction (F : Type 0) : Type 0 where
  pub request_id : String
  pub pseudo_user : String
  pub conversation_id : Option String
  pub question_enc : String
  pub answer : Option String
  pub kb_version : Option ℕ
  pub model_version : Option String
  pub prompt_version : Option String
  pub confidence : Option F
  pub level : Option String
  pub used_external : Bool
  pub escalated : Bool
  pub source_corrected : Bool
  pub created_at : ℕ

pub record Citation : Type 0 where
  pub id : ℕ
  pub request_id : String
  pub chunk_id : Option String
  pub url : Option String
  pub doc_version : Option String
  pub page : Option ℕ

pub record ToolCall (F : Type 0) : Type 0 where
  pub id : ℕ
  pub request_id : String
  pub tool : String
  pub operation : String
  pub language : Option String
  pub verdict : String
  pub duration_ms : F
  pub error : Option String
  pub created_at : ℕ

pub record EscalationTicket (F J : Type 0) : Type 0 where
  pub ticket_id : String
  pub request_id : String
  pub pseudo_user : String
  pub question_enc : String
  pub confidence : F
  pub status : String
  pub context_ids : J
  pub external_results : J
  pub external_response_ms : Option F
  pub expert : Option String
  pub answer : Option String
  pub created_at : ℕ
  pub answered_at : Option ℕ

pub record Upload : Type 0 where
  pub attachment_id : String
  pub request_id : String
  pub media_type : String
  pub uri : String
  pub sha256 : String
  pub size_bytes : ℕ
  pub created_at : ℕ

pub record Conversation : Type 0 where
  pub conversation_id : String
  pub pseudo_user : String
  pub started_at : ℕ
  pub last_active_at : ℕ

pub record RequestFact (F : Type 0) : Type 0 where
  pub request_id : String
  pub level : String
  pub latency_ms : Option F
  pub e2e_ms : Option F
  pub tokens_in : Option ℕ
  pub tokens_out : Option ℕ
  pub guard_verdict : Option String
  pub attachment_count : ℕ
  pub created_at : ℕ

pub record GuardEvent (F : Type 0) : Type 0 where
  pub id : ℕ
  pub request_id : Option String
  pub detector : String
  pub stage : String
  pub category : String
  pub score : F
  pub action : String
  pub created_at : ℕ

pub record StagedChunk (J : Type 0) : Type 0 where
  pub ingestion_run_id : String
  pub schema_version : String
  pub producer : String
  pub created_at : ℕ
  pub chunk_id : String
  pub doc_version : String
  pub embedding_model : String
  pub chunker_version : String
  pub page_start : ℕ
  pub page_end : ℕ
  pub section_path : J
  pub text : String
  pub kinds : J
  pub token_count : ℕ
  pub region_ids : J
  pub embedding : J

pub record Ops (F J : Type 0) : Type 0 where
  pub interactions : List (Interaction F)
  pub citations : List Citation
  pub tool_calls : List (ToolCall F)
  pub escalation_tickets : List (EscalationTicket F J)
  pub uploads : List Upload
  pub conversations : List Conversation
  pub request_facts : List (RequestFact F)
  pub guard_events : List (GuardEvent F)
  pub staged_chunks : List (StagedChunk J)
