-- ===== src/Contracts/KnowledgeBase.antt =====
-- libs/contracts/src/chatbot_contracts/knowledge_base.py and base.py: the records of the offline
-- plane. A float is a value of the parameter `F`. The bounds that pydantic checks are predicates.
use ai_chatbot.Base.{ℕ, String, Bool, ◌&&◌, Option, List, leb}
use ai_chatbot.Contracts.Enums.{SourceType, RegionKind, KnowledgeBaseStatus}

abbrev pub schema_version_now : String
schema_version_now = "1.1"

-- The default of `producer`.
abbrev pub unknown_producer : String
unknown_producer = "unknown"

pub record DocumentVersion : Type 0 where
  pub schema_version : String
  pub producer : String
  pub doc_id : String
  pub doc_version : String
  pub sha256 : String
  pub source_type : SourceType
  pub course_code : String
  pub source_id : String
  pub raw_uri : String
  pub licence : Option String
  pub source_url : Option String
  pub page_count : Option ℕ
  pub supersedes : Option String

pub record PageFlags (F : Type 0) : Type 0 where
  pub min_ocr_conf : Option F
  pub pii_hits : ℕ
  pub pii_remaining : ℕ
  pub dup_of : Option String
  pub injection_hits : ℕ

pub record CleanPage (F : Type 0) : Type 0 where
  pub schema_version : String
  pub producer : String
  pub ingestion_run_id : String
  pub doc_version : String
  pub page_no : ℕ
  pub markdown : String
  pub region_ids : List String
  pub flags : PageFlags F

pub record Chunk (F : Type 0) : Type 0 where
  pub chunk_id : String
  pub doc_version : String
  pub page_start : ℕ
  pub page_end : ℕ
  pub section_path : List String
  pub text : String
  pub kinds : List RegionKind
  pub token_count : ℕ
  pub region_ids : List String
  pub embedding : Option (List F)

-- `Field(ge=1)` on both pages, and the validator `_pages_in_order`.
abbrev pub pages_in_order : {F : Type 0} → Chunk F → Bool
pages_in_order c = leb 1 c.page_start && leb 1 c.page_end && leb c.page_start c.page_end

pub record ChunkSet (F : Type 0) : Type 0 where
  pub schema_version : String
  pub producer : String
  pub ingestion_run_id : String
  pub doc_version : String
  pub embedding_model : String
  pub chunker_version : String
  pub chunks : List (Chunk F)

pub record KnowledgeBaseManifest : Type 0 where
  pub schema_version : String
  pub producer : String
  pub version_id : ℕ
  pub parent_version : Option ℕ
  pub doc_versions : List String
  pub embedding_model : String
  pub chunker_version : String
  pub status : KnowledgeBaseStatus
  pub gate_report_id : Option String
