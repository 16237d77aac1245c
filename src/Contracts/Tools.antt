-- ===== src/Contracts/Tools.antt =====
-- libs/contracts/src/chatbot_contracts/external.py and tools.py. A float is a value of `F`; a bound on
-- a number that pydantic checks is a predicate.
use ai_chatbot.Base.{ℕ, String, Bool, Option, List, ◌&&◌, leb}
use ai_chatbot.Base.Dict.{Dict}
use ai_chatbot.Contracts.OnlineEnums.{CodeLanguage, Verdict, CandidateOrigin, CandidateStatus}

-- A value of the dictionary `values`, a float or a text.
pub data Value (F : Type 0) : Type 0 where
  number : F → Value F
  text : String → Value F

pub record ExternalItem (F : Type 0) : Type 0 where
  pub url : String
  pub title : String
  pub snippet : String
  pub score : F
  pub licence : Option String
  pub snapshot_uri : Option String

pub record ExternalSearchRequest : Type 0 where
  pub schema_version : String
  pub producer : String
  pub request_id : String
  pub query : String
  pub topics : List String
  pub max_results : ℕ

pub record ExternalSearchResult (F : Type 0) : Type 0 where
  pub schema_version : String
  pub producer : String
  pub request_id : String
  pub items : List (ExternalItem F)
  pub timings_ms : Dict F

pub record ExternalCandidate : Type 0 where
  pub schema_version : String
  pub producer : String
  pub candidate_id : String
  pub url : String
  pub snapshot_sha256 : String
  pub found_by : CandidateOrigin
  pub status : CandidateStatus
  pub licence : Option String
  pub course_code : Option String
  pub topic : Option String

pub record CalcCheck (F : Type 0) : Type 0 where
  pub schema_version : String
  pub producer : String
  pub request_id : String
  pub operation : String
  pub expression : Option String
  pub variables : Dict F
  pub units : Option String

pub record CalcResult (F : Type 0) : Type 0 where
  pub schema_version : String
  pub producer : String
  pub request_id : String
  pub valid : Bool
  pub explanation : String
  pub value : Option F

pub record CodeTask : Type 0 where
  pub schema_version : String
  pub producer : String
  pub request_id : String
  pub language : CodeLanguage
  pub task : String
  pub data_uri : Option String
  pub expected : Option String

pub record CodeResult (F : Type 0) : Type 0 where
  pub schema_version : String
  pub producer : String
  pub request_id : String
  pub code : String
  pub stdout : String
  pub verdict : Verdict
  pub duration_ms : F
  pub values : Dict (Value F)

pub record ToolCallRecord (F : Type 0) : Type 0 where
  pub tool : String
  pub operation : String
  pub verdict : Verdict
  pub duration_ms : F

-- `Field(ge=1, le=20)`
abbrev pub has_valid_max_results : ExternalSearchRequest → Bool
has_valid_max_results request = leb 1 request.max_results && leb request.max_results 20
