-- ===== src/Tests/Releasing.antt =====
-- Version 2 from its gate run to its publication, and a gate run of the published version 1 with the
-- manifest that it had as a candidate.
use ai_chatbot.Base.{ℕ, true, none, some, List, [], ◌∷◌, ◌≡◌, refl, ok, string_eq, nat_eq, minus}
use ai_chatbot.Contracts.Enums.{candidate, is_published}
use ai_chatbot.Contracts.KnowledgeBase.{KnowledgeBaseManifest}
use ai_chatbot.Platform.Models.{CheckResult, serving_alias, auto_passed}
use ai_chatbot.Platform.Registry.{
  get_kb_version, get_alias, manifest_from_row, set_sme_decision, add_gate_report, set_kb_status,
  latest_published,
}
use ai_chatbot.Platform.Index.Memory.{memory_index, active_chunks}
use ai_chatbot.Platform.Index.Memory.Lawful.{memory_lawful}
use ai_chatbot.Platform.Gate.Checks.{GateContext, check_pii, not_implemented_check}
use ai_chatbot.Platform.Gate.Runs.{run_gate, report_of, sme_required, record_sme_decision}
use ai_chatbot.Platform.Gate.Stale.{run_gate-stale}
use ai_chatbot.Platform.Versioning.Publish.{publish, Plan, require_matching_sets, plan_publish}
use ai_chatbot.Base.Dict.{merge}
use ai_chatbot.Platform.Versioning.Publish.Release.{publish-released, system_of}
use ai_chatbot.Tests.Sample.{registry, index, set_b, row_1, row_2}
use ai_chatbot.Tests.Publishing.{index-IsValid, distinct}
use ai_chatbot.Tests.Registering.{runtime}

abbrev context : KnowledgeBaseManifest → GateContext ℕ
context m = record { manifest = m; chunk_sets = []; clean_pages = []; documents = [] }

abbrev checks : List (GateContext ℕ → CheckResult)
checks = check_pii runtime ∷ not_implemented_check runtime "ragas_regression" ∷ []

abbrev version_2 : KnowledgeBaseManifest
version_2 = manifest_from_row (record row_2 { gate_report_id = some "gate-3" })

abbrev plan : Plan
plan = record { active = "a1" ∷ []; target = "a1" ∷ "b1" ∷ "b2" ∷ [] }

publish-released_example :
    (out : KnowledgeBaseManifest) × ((publish memory_index 2 (set_b ∷ []) 9 (
        system_of "gate-3"
          (context (manifest_from_row row_2))
          checks
          6
          registry
          "expert"
          none
          9
          memory_index
          index)).0
      ≡ ok out)
    × (is_published out.status ≡ true)
    × (out.doc_versions ≡ version_2.doc_versions)
    × (get_alias serving_alias
          (publish memory_index 2 (set_b ∷ []) 9 (
            system_of "gate-3"
              (context (manifest_from_row row_2))
              checks
              6
              registry
              "expert"
              none
              9
              memory_index
              index)).1.registry
        ≡ some 2)
unfolding manifest_from_row sme_required get_kb_version nat_eq minus string_eq auto_passed check_pii
    not_implemented_check record_sme_decision set_sme_decision run_gate add_gate_report
    set_kb_status latest_published memory_lawful require_matching_sets plan_publish merge
    active_chunks
publish-released_example =
    publish-released "gate-3" (context (manifest_from_row row_2)) checks 6 registry "expert" none 9
      memory_index memory_lawful true version_2 index (set_b ∷ []) plan refl refl refl distinct refl
      refl refl refl index-IsValid refl refl refl

abbrev version_1 : KnowledgeBaseManifest
version_1 = record (manifest_from_row row_1) { status = candidate }

run_gate-stale_example :
    (m : KnowledgeBaseManifest) × ((run_gate "gate-4" (context version_1) checks 6 registry).0
      ≡ ok (report_of "gate-4" (context version_1) checks true 6))
    × (get_kb_version 1 (run_gate "gate-4" (context version_1) checks 6 registry).1 ≡ ok m)
    × (m.status ≡ candidate)
    × (m.gate_report_id ≡ some "gate-4")
    × (m.doc_versions ≡ row_1.doc_versions)
unfolding sme_required manifest_from_row string_eq get_kb_version nat_eq
run_gate-stale_example =
    run_gate-stale "gate-4" (context version_1) checks 6 registry true (manifest_from_row row_1)
      refl refl refl distinct refl
