-- ===== src/Tests/Sample.antt =====
-- The sample registry and the sample index in memory. Embeddings are lists of numbers.
use ai_chatbot.Base.{ℕ, String, true, false, Option, none, some, List, [], ◌∷◌}
use ai_chatbot.Contracts.Enums.{KnowledgeBaseStatus, candidate, published}
use ai_chatbot.Contracts.KnowledgeBase.{Chunk, ChunkSet}
use ai_chatbot.Platform.Models.{GateReport, approved}
use ai_chatbot.Platform.Registry.{Registry, KbRow}
use ai_chatbot.Platform.Index.Memory.{Memory, memory_index, to_stored}
use ai_chatbot.Platform.Versioning.Publish.{System}

abbrev pub chunk : String → String → Chunk ℕ
chunk id doc = record {
  chunk_id = id;
  doc_version = doc;
  page_start = 1;
  page_end = 2;
  section_path = [];
  text = "text";
  kinds = [];
  token_count = 4;
  region_ids = [];
  embedding = some (1 ∷ 2 ∷ []);
}

abbrev pub chunk_set : String → List (Chunk ℕ) → ChunkSet ℕ
chunk_set doc chunks = record {
  schema_version = "1.1";
  producer = "w6";
  ingestion_run_id = "run";
  doc_version = doc;
  embedding_model = "model";
  chunker_version = "chunker";
  chunks = chunks;
}

abbrev pub set_a : ChunkSet ℕ
set_a = chunk_set "a" (chunk "a1" "a" ∷ [])

abbrev pub set_b : ChunkSet ℕ
set_b = chunk_set "b" (chunk "b1" "b" ∷ chunk "b2" "b" ∷ [])

abbrev pub kb_row : ℕ → Option ℕ → List String → KnowledgeBaseStatus → Option String → KbRow
kb_row n parent docs status report = record {
  version_id = n;
  parent_version = parent;
  doc_versions = docs;
  embedding_model = "model";
  chunker_version = "chunker";
  status = status;
  gate_report_id = report;
  created_at = n;
  published_at = none;
}

abbrev pub row_1 : KbRow
row_1 = kb_row 1 none ("a" ∷ []) published none

abbrev pub row_2 : KbRow
row_2 = kb_row 2 (some 1) ("a" ∷ "b" ∷ []) candidate (some "gate-2")

abbrev pub report_2 : GateReport
report_2 = record {
  report_id = "gate-2";
  version_id = 2;
  checks = record { name = "pii"; passed = true; skipped = false; details = [] } ∷ [];
  requires_sme = true;
  created_at = 3;
  sme_decision = some approved;
  sme_by = some "expert";
  sme_comment = none;
  sme_at = some 4;
}

abbrev pub registry : Registry
registry = record {
  docs = [];
  runs = [];
  versions = row_1 ∷ row_2 ∷ [];
  aliases = record { name = "serving"; version_id = 1; updated_at = 1 } ∷ [];
  reports = report_2 ∷ [];
}

abbrev pub index : Memory ℕ
index = record {
  chunks = ("a1", to_stored set_a (chunk "a1" "a")) ∷ [];
  embeddings = ("a1", 1 ∷ 2 ∷ []) ∷ [];
  intervals = ("a1", (1, none) ∷ []) ∷ [];
}

abbrev pub system : System {F = ℕ} memory_index
system = record { registry = registry; index = index }
