-- ===== src/Tests/Registering.antt =====
-- The operations on versions and gate reports, on the sample registry.
use ai_chatbot.Base.{
  ℕ, String, true, false, none, some, List, [], ◌∷◌, ◌≡◌, refl, Result, ok, raise, versioning,
  string_eq, nat_eq, ◌==◌, minus, sorted_set, contains, if◌then◌else◌, ltb,
}
use mathlib.Core.Option
use ai_chatbot.Contracts.Enums.{rejected, lecture_note}
use ai_chatbot.Contracts.KnowledgeBase.{KnowledgeBaseManifest}
use ai_chatbot.Platform.Models.{
  GateReport, CheckResult, is_approved, auto_passed, serving_alias, candidate_alias,
}
use ai_chatbot.Platform.Registry.{
  Registry, KbRow, DocRow, manifest_from_row, manifest_to_row, get_kb_version, get_gate_report,
  set_alias, set_kb_status, get_alias, find_kb, add_kb_version, next_version_id, doc_versions_by_id,
  retracted, set_sme_decision, add_gate_report,
}
use ai_chatbot.Platform.Registry.Laws.{DistinctIds, get_alias-set_alias}
use ai_chatbot.Platform.Registry.Additions.{add_kb_version-next}
use ai_chatbot.Platform.Versioning.Candidate.{
  create_candidate, rollback, reject, base_docs, candidate_docs, new_manifest, dropped_docs,
}
use ai_chatbot.Platform.Versioning.Candidate.Documents.{contains-candidate_docs}
use ai_chatbot.Platform.Versioning.Candidate.Laws.{rollback_lem, reject_lem, create_candidate_lem}
use ai_chatbot.Platform.Versioning.Publish.{require_publishable}
use ai_chatbot.Platform.Gate.Checks.{GateContext, not_implemented_check, check_pii, Runtime}
use ai_chatbot.Platform.Gate.Runs.{run_gate, record_sme_decision, report_of}
use ai_chatbot.Platform.Gate.Approval.{
  is_approved-record_sme_decision, require_publishable-run_gate,
}
use ai_chatbot.Tests.Sample.{registry, row_2, report_2}
use ai_chatbot.Tests.Publishing.{distinct}

-- A document that corrects "a".
abbrev pub doc_row : DocRow
doc_row = record {
  doc_version = "c";
  doc_id = "course/notes";
  sha256 = "hash";
  source_type = lecture_note;
  course_code = "course";
  source_id = "notes";
  raw_uri = "s3://raw/ha/hash.pdf";
  licence = none;
  source_url = none;
  page_count = some 2;
  supersedes = some "a";
  retracted_at = none;
  producer = "platform";
  created_at = 5;
}

abbrev pub corrected : Registry
corrected = record registry { docs = doc_row ∷ [] }

abbrev created : Result KnowledgeBaseManifest × Registry
created = create_candidate ("c" ∷ []) [] "model" "chunker" 7 corrected

abbrev manifest_3 : KnowledgeBaseManifest
manifest_3 = new_manifest (some 1) ("c" ∷ []) "model" "chunker" corrected

create-3 : create_candidate ("c" ∷ []) [] "model" "chunker" 7 corrected ≡ (ok manifest_3, created.1)
unfolding create_candidate minus doc_versions_by_id string_eq get_alias get_kb_version nat_eq
    add_kb_version next_version_id set_alias sorted_set retracted
create-3 = refl

create_candidate_example :
    (base : List String) × (base_docs (get_alias serving_alias corrected) corrected ≡ ok base)
    × (manifest_3
        ≡ new_manifest
            (get_alias serving_alias corrected)
            (candidate_docs base ("c" ∷ []) [] corrected)
            "model"
            "chunker"
            corrected)
    × ((k : ℕ)
        → find_kb k created.1 ≡ (
            if k == next_version_id corrected
            then some (manifest_to_row manifest_3 7)
            else find_kb k corrected))
    × DistinctIds created.1.versions
    × (get_alias serving_alias created.1 ≡ get_alias serving_alias corrected)
    × (get_alias candidate_alias created.1 ≡ some (next_version_id corrected))
create_candidate_example =
    create_candidate_lem ("c" ∷ []) [] "model" "chunker" 7 corrected created.1 manifest_3 distinct
      create-3

contains-candidate_docs_example :
    contains {A = String} (candidate_docs ("a" ∷ []) ("c" ∷ []) [] corrected) "a" ≡ false
unfolding string_eq dropped_docs doc_versions_by_id retracted
contains-candidate_docs_example =
    contains-candidate_docs ("a" ∷ []) ("c" ∷ []) [] corrected "a" (refl, tt)

rollback_example :
    ((rollback 1 8 registry).0 ≡ ok tt)
    × ((other : String)
        → get_alias other (rollback 1 8 registry).1
          ≡ (if serving_alias == other then some 1 else get_alias other registry))
    × ((rollback 1 8 registry).1.versions ≡ registry.versions)
    × ((rollback 1 8 registry).1.reports ≡ registry.reports)
unfolding find_kb nat_eq
rollback_example = rollback_lem 1 8 registry

reject_example :
    ((reject 2 8 registry).0 ≡ ok tt)
    × ((k : ℕ)
        → find_kb k (reject 2 8 registry).1 ≡ (
            if k == 2
            then Option.map {A = KbRow}
                (λ row. record row { status = rejected })
                (find_kb k registry)
            else find_kb k registry))
    × ((name : String) → get_alias name (reject 2 8 registry).1 ≡ get_alias name registry)
unfolding find_kb nat_eq
reject_example = reject_lem 2 8 registry distinct

get_alias-set_alias_example : get_alias "serving" (set_alias "serving" 2 8 registry).1 ≡ some 2
unfolding string_eq
get_alias-set_alias_example = get_alias-set_alias "serving" "serving" 2 8 registry

add_kb_version_example :
    ((add_kb_version manifest_3 7 registry).0 ≡ ok tt)
    × DistinctIds (add_kb_version manifest_3 7 registry).1.versions
    × ((k : ℕ)
        → find_kb k (add_kb_version manifest_3 7 registry).1 ≡ (
            if k == manifest_3.version_id
            then some (manifest_to_row manifest_3 7)
            else find_kb k registry))
unfolding next_version_id
add_kb_version_example = add_kb_version-next manifest_3 7 registry distinct refl

abbrev decided : Result GateReport × Registry
decided = record_sme_decision "gate-2" false "expert" none 9 registry

abbrev refused_report : GateReport
refused_report = record report_2 {
  sme_decision = some ai_chatbot.Platform.Models.SmeDecision.rejected;
  sme_at = some 9;
}

decide-2 :
    record_sme_decision "gate-2" false "expert" none 9 registry ≡ (ok refused_report, decided.1)
unfolding record_sme_decision set_sme_decision nat_eq string_eq get_gate_report
decide-2 = refl

is_approved-record_sme_decision_example : is_approved refused_report ≡ false
unfolding get_gate_report string_eq auto_passed
is_approved-record_sme_decision_example =
    is_approved-record_sme_decision "gate-2" false "expert" none 9 registry decided.1 report_2
      refused_report refl decide-2

abbrev context : GateContext ℕ
context = record {
  manifest = manifest_from_row row_2;
  chunk_sets = [];
  clean_pages = [];
  documents = [];
}

abbrev pub runtime : Runtime ℕ
runtime = record {
  sha256_hex = λ text. text;
  str = λ _. "n";
  str_list = λ _. "[]";
  fixed = λ _. "0.00";
  percent = λ _. "0.00%";
  is_below = ltb;
  is_finite = λ _. true;
  is_zero_vector = λ _. false;
  ratio = λ part whole. part;
}

abbrev checks : List (GateContext ℕ → CheckResult)
checks = check_pii runtime ∷ not_implemented_check runtime "ragas_regression" ∷ []

abbrev gate_run : Result GateReport × Registry
gate_run = run_gate "gate-3" context checks 6 registry

require_publishable-run_gate_example :
    (gate_run.0 ≡ ok (report_of "gate-3" context checks true 6))
    × (require_publishable
          (manifest_from_row (record row_2 { gate_report_id = some "gate-3" }))
          gate_run.1
        ≡ raise versioning)
unfolding auto_passed check_pii not_implemented_check find_kb get_kb_version string_eq nat_eq
    run_gate minus set_kb_status add_gate_report
require_publishable-run_gate_example =
    require_publishable-run_gate "gate-3" context checks 6 registry true
      (manifest_from_row (record row_2 { gate_report_id = some "gate-3" })) refl refl refl distinct
      refl refl
