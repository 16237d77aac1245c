-- ===== src/Platform/Models.antt =====
-- libs/platform/src/chatbot_platform/models.py: the records that stay inside the platform. Times
-- are numbers, counted from a fixed moment.
use ai_chatbot.Base.{
  ℕ, String, Bool, true, false, ◌||◌, not, Option, some, List, all, if◌then◌else◌,
}
use ai_chatbot.Contracts.KnowledgeBase.{Chunk}

abbrev pub serving_alias : String
serving_alias = "serving"

abbrev pub candidate_alias : String
candidate_alias = "candidate"

pub data RunStatus : Type 0 where
  running succeeded failed : RunStatus

pub data SmeDecision : Type 0 where
  approved rejected : SmeDecision

pub record StoredChunk (F : Type 0) : Type 0 where
  pub chunk : Chunk F
  pub ingestion_run_id : String
  pub embedding_model : String
  pub chunker_version : String

pub record IndexHit (F : Type 0) : Type 0 where
  pub chunk : StoredChunk F
  pub score : F

pub record CheckResult : Type 0 where
  pub name : String
  pub passed : Bool
  pub skipped : Bool
  pub details : List String

pub record GateReport : Type 0 where
  pub report_id : String
  pub version_id : ℕ
  pub checks : List CheckResult
  pub requires_sme : Bool
  pub created_at : ℕ
  pub sme_decision : Option SmeDecision
  pub sme_by : Option String
  pub sme_comment : Option String
  pub sme_at : Option ℕ

unfoldable pub auto_passed : GateReport → Bool
auto_passed report = all (λ check. check.passed || check.skipped) report.checks

abbrev pub is_approval : Option SmeDecision → Bool
is_approval (some SmeDecision.approved) = true
is_approval _ = false

-- `GateReport.approved`
unfoldable pub is_approved : GateReport → Bool
unfolding auto_passed
is_approved report =
    if auto_passed report then not report.requires_sme || is_approval report.sme_decision else false

pub record LineageTrace : Type 0 where
  pub chunk_id : String
  pub doc_version : String
  pub page_start : ℕ
  pub page_end : ℕ
  pub region_ids : List String
  pub ingestion_run_id : String
  pub raw_sha256 : String
  pub raw_uri : String
  pub source_url : Option String
  pub licence : Option String

pub record CorrectionFlag : Type 0 where
  pub request_id : String
  pub chunk_id : String
  pub doc_version : String
  pub superseded_by : Option String
