-- ===== src/Tests/Checking.antt =====
-- The checks of the gate on the sample candidate with one cleaned page.
use ai_chatbot.Base.{ℕ, true, false, none, some, [], ◌∷◌, ◌≡◌, string_eq, nat_eq}
use ai_chatbot.Base.Dict.{lookup}
use ai_chatbot.Contracts.Enums.{external_exercise}
use ai_chatbot.Contracts.KnowledgeBase.{CleanPage, DocumentVersion}
use ai_chatbot.Platform.Registry.{manifest_from_row}
use ai_chatbot.Platform.Gate.Checks.{
  GateContext, check_page_coverage, check_ocr_confidence, check_pii, check_embeddings,
  check_licences, check_chunk_ids, make_chunk_id,
}
use ai_chatbot.Platform.Gate.Passing.{passed_lem}
use ai_chatbot.Tests.Sample.{set_b, row_2}
use ai_chatbot.Tests.Registering.{runtime}

abbrev page : CleanPage ℕ
page = record {
  schema_version = "1.1";
  producer = "w5";
  ingestion_run_id = "run";
  doc_version = "b";
  page_no = 1;
  markdown = "text";
  region_ids = [];
  flags = record {
    min_ocr_conf = some 7;
    pii_hits = 1;
    pii_remaining = 0;
    dup_of = none;
    injection_hits = 0;
  };
}

abbrev document : DocumentVersion
document = record {
  schema_version = "1.1";
  producer = "platform";
  doc_id = "b";
  doc_version = "b";
  sha256 = "hash";
  source_type = external_exercise;
  course_code = "course";
  source_id = "b";
  raw_uri = "s3://raw/ha/hash.pdf";
  licence = none;
  source_url = none;
  page_count = some 2;
  supersedes = none;
}

abbrev context : GateContext ℕ
context = record {
  manifest = manifest_from_row row_2;
  chunk_sets = set_b ∷ [];
  clean_pages = page ∷ [];
  documents = ("b", document) ∷ [];
}

-- The second page is missing, and the exercise has no licence.
passed_example :
    ((check_page_coverage runtime context).passed ≡ false)
    × ((check_ocr_confidence runtime 5 context).passed ≡ true)
    × ((check_pii runtime context).passed ≡ true)
    × ((check_embeddings runtime 2 context).passed ≡ true)
    × ((check_licences runtime context).passed ≡ false)
    × ((check_chunk_ids runtime context).passed ≡ false)
unfolding string_eq nat_eq lookup manifest_from_row make_chunk_id
passed_example = passed_lem runtime 5 2 context
