-- ===== src/Platform/Registry/Rows.antt =====
-- The tables of the schema `registry` in libs/platform/src/chatbot_platform/sql.py, one record to a
-- table. The gate reports are kept as `GateReport` records, column by column the same.
use ai_chatbot.Base.{ℕ, String, Option, none, List}
use ai_chatbot.Base.Dict.{Dict}
use ai_chatbot.Contracts.Enums.{SourceType, KnowledgeBaseStatus}
use ai_chatbot.Contracts.KnowledgeBase.{
  DocumentVersion, KnowledgeBaseManifest, schema_version_now, unknown_producer,
}
use ai_chatbot.Platform.Models.{RunStatus, GateReport}

pub record DocRow : Type 0 where
  pub doc_version : String
  pub doc_id : String
  pub sha256 : String
  pub source_type : SourceType
  pub course_code : String
  pub source_id : String
  pub raw_uri : String
  pub licence : Option String
  pub source_url : Option String
  pub page_count : Option ℕ
  pub supersedes : Option String
  pub retracted_at : Option ℕ
  pub producer : String
  pub created_at : ℕ

pub record RunRow : Type 0 where
  pub run_id : String
  pub doc_version : String
  pub dagster_run_id : Option String
  pub status : RunStatus
  pub started_at : ℕ
  pub finished_at : Option ℕ
  pub worker_digests : Dict String
  pub model_versions : Dict String

pub record KbRow : Type 0 where
  pub version_id : ℕ
  pub parent_version : Option ℕ
  pub doc_versions : List String
  pub embedding_model : String
  pub chunker_version : String
  pub status : KnowledgeBaseStatus
  pub gate_report_id : Option String
  pub created_at : ℕ
  pub published_at : Option ℕ

pub record AliasRow : Type 0 where
  pub name : String
  pub version_id : ℕ
  pub updated_at : ℕ

-- The database that a `Registry` works on.
pub record Registry : Type 0 where
  pub docs : List DocRow
  pub runs : List RunRow
  pub versions : List KbRow
  pub aliases : List AliasRow
  pub reports : List GateReport

-- The row of `add_doc_version`: the record without its schema version, and the time.
unfoldable pub doc_to_row : DocumentVersion → ℕ → DocRow
doc_to_row doc now = record {
  doc_version = doc.doc_version;
  doc_id = doc.doc_id;
  sha256 = doc.sha256;
  source_type = doc.source_type;
  course_code = doc.course_code;
  source_id = doc.source_id;
  raw_uri = doc.raw_uri;
  licence = doc.licence;
  source_url = doc.source_url;
  page_count = doc.page_count;
  supersedes = doc.supersedes;
  retracted_at = none;
  producer = doc.producer;
  created_at = now;
}

unfoldable pub doc_from_row : DocRow → DocumentVersion
doc_from_row row = record {
  schema_version = schema_version_now;
  producer = row.producer;
  doc_id = row.doc_id;
  doc_version = row.doc_version;
  sha256 = row.sha256;
  source_type = row.source_type;
  course_code = row.course_code;
  source_id = row.source_id;
  raw_uri = row.raw_uri;
  licence = row.licence;
  source_url = row.source_url;
  page_count = row.page_count;
  supersedes = row.supersedes;
}

-- The row of `add_kb_version`.
unfoldable pub manifest_to_row : KnowledgeBaseManifest → ℕ → KbRow
manifest_to_row m now = record {
  version_id = m.version_id;
  parent_version = m.parent_version;
  doc_versions = m.doc_versions;
  embedding_model = m.embedding_model;
  chunker_version = m.chunker_version;
  status = m.status;
  gate_report_id = m.gate_report_id;
  created_at = now;
  published_at = none;
}

unfoldable pub manifest_from_row : KbRow → KnowledgeBaseManifest
manifest_from_row row = record {
  schema_version = schema_version_now;
  producer = unknown_producer;
  version_id = row.version_id;
  parent_version = row.parent_version;
  doc_versions = row.doc_versions;
  embedding_model = row.embedding_model;
  chunker_version = row.chunker_version;
  status = row.status;
  gate_report_id = row.gate_report_id;
}
