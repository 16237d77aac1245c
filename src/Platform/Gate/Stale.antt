-- ===== src/Platform/Gate/Stale.antt =====
-- What a gate run does with a manifest that was read before the version changed.
use ai_chatbot.Base.{
  ℕ, String, Bool, true, false, some, List, ◌≡◌, refl, ap, ◌∙◌, arith, ok, any, is_some, string_eq,
  ◌==◌, from_some, nat_eq,
}
use ai_chatbot.Contracts.Enums.{candidate, is_candidate}
use ai_chatbot.Contracts.KnowledgeBase.{KnowledgeBaseManifest}
use ai_chatbot.Platform.Models.{CheckResult}
use ai_chatbot.Platform.Registry.{
  Registry, get_kb_version, find_kb, add_gate_report, set_kb_status, with_status, manifest_from_row,
}
use ai_chatbot.Platform.Registry.Laws.{DistinctIds, get_kb_version-set_kb_status}
use ai_chatbot.Platform.Registry.Additions.{find_kb-id, find_kb-versions}
use ai_chatbot.Platform.Gate.Checks.{GateContext}
use ai_chatbot.Platform.Gate.Runs.{sme_required, report_of, run_gate}
use ai_chatbot.Platform.Gate.Approval.{run_gate-ok, get_gate_report-add}

find_kb_of_version :
    (n : ℕ) (r : Registry) (m : KnowledgeBaseManifest)
    → get_kb_version n r ≡ ok m
    → is_some (find_kb n r) ≡ true
unfolding get_kb_version find_kb
find_kb_of_version n r m h = ground arith

relinked_version :
    (id : String) (n now : ℕ) (r q : Registry) (old : KnowledgeBaseManifest)
    → q.versions ≡ r.versions
    → get_kb_version n r ≡ ok old
    → (m : KnowledgeBaseManifest) × (get_kb_version n (set_kb_status n candidate (some id) now q).1
        ≡ ok m)
      × (m.status ≡ candidate)
      × (m.gate_report_id ≡ some id)
      × (m.doc_versions ≡ old.doc_versions)
unfolding get_kb_version with_status manifest_from_row
relinked_version id n now r q old e g =
    from_some (find_kb n r) (find_kb_of_version n r old g) (λ row f. (
      manifest_from_row (with_status candidate (some id) now row),
      ground (
        arith,
        get_kb_version-set_kb_status n n candidate (some id) now q,
        find_kb-versions n q r e,
        find_kb-id n r row f,
      ),
      refl,
      refl,
      ground arith,
    ))

module _ {F : Type 0} (id : String) (ctx : GateContext F)
    (checks : List (GateContext F → CheckResult)) (now : ℕ) (r : Registry) where
  abbrev n : ℕ
  n = ctx.manifest.version_id

  -- A gate run that is given a manifest in the status candidate returns and leaves the version in
  -- the registry a candidate, with the report of the run and the documents that it had, whatever
  -- its status there.
  pub run_gate-stale :
      (sme : Bool) (old : KnowledgeBaseManifest)
      → is_candidate ctx.manifest.status ≡ true
      → sme_required r ctx.manifest ≡ ok sme
      → any (λ report. report.report_id == id) r.reports ≡ false
      → DistinctIds r.versions
      → get_kb_version n r ≡ ok old
      → (m : KnowledgeBaseManifest) × ((run_gate id ctx checks now r).0
          ≡ ok (report_of id ctx checks sme now))
        × (get_kb_version n (run_gate id ctx checks now r).1 ≡ ok m)
        × (m.status ≡ candidate)
        × (m.gate_report_id ≡ some id)
        × (m.doc_versions ≡ old.doc_versions)
  run_gate-stale sme old c s fresh d g =
      let done = run_gate-ok id ctx checks now r sme c s fresh d (find_kb_of_version n r old g) in
      let (added, found, versions) =
        get_gate_report-add id (report_of id ctx checks sme now) r refl fresh in
      let stored = (add_gate_report (report_of id ctx checks sme now) r).1 in
      let (m, there, status, linked, docs) = relinked_version id n now r stored old versions g in
      (m, ap (λ p. p.0) done, ap (λ p. get_kb_version n p.1) done ∙ there, status, linked, docs)
