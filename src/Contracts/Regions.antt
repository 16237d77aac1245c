-- ===== src/Contracts/Regions.antt =====
-- The regions of a page in libs/contracts/src/chatbot_contracts/knowledge_base.py. A float is a value
-- of `F`.
use ai_chatbot.Base.{ℕ, String, Bool, Option, leb}
use ai_chatbot.Contracts.Enums.{RegionKind}

pub record Region (F : Type 0) : Type 0 where
  pub schema_version : String
  pub producer : String
  pub ingestion_run_id : String
  pub region_id : String
  pub doc_version : String
  pub page_no : ℕ
  pub kind : RegionKind
  pub bbox : Option (F × (F × (F × F)))
  pub raw_text : Option String
  pub image_uri : Option String

-- `Field(ge=1)`
abbrev pub has_valid_page : {F : Type 0} → Region F → Bool
has_valid_page region = leb 1 region.page_no

pub record Extractor : Type 0 where
  pub name : String
  pub version : String

pub record ExtractedRegion (F : Type 0) : Type 0 where
  pub schema_version : String
  pub producer : String
  pub ingestion_run_id : String
  pub region_id : String
  pub kind : RegionKind
  pub content : String
  pub extractor : Extractor
  pub confidence : F
