-- ===== src/Platform/Versioning/Publish/Release.antt =====
-- From a gate run to the publication of the version, and what a gate run with an old manifest does.
use ai_chatbot.Base.{
  ℕ, String, Bool, true, false, Option, some, List, ◌≡◌, refl, ap, ◌∙◌, sym, arith, ok, any,
  is_some, string_eq, ◌==◌, Result-cases, inl, inr, nat_eq,
}
use ai_chatbot.Contracts.Enums.{candidate, is_candidate, is_published}
use ai_chatbot.Contracts.KnowledgeBase.{ChunkSet, KnowledgeBaseManifest}
use ai_chatbot.Platform.Models.{CheckResult, auto_passed, serving_alias}
use ai_chatbot.Platform.Registry.{
  Registry, get_kb_version, find_kb, get_gate_report, latest_published, add_gate_report,
  set_kb_status, set_sme_decision, get_alias,
}
use ai_chatbot.Platform.Registry.Laws.{DistinctIds, set_kb_status-DistinctIds}
use ai_chatbot.Platform.Index.{ServingIndex, IsLawful}
use ai_chatbot.Platform.Versioning.Publish.{publish}
use ai_chatbot.Platform.Versioning.Publish.Reads.{
  System, Plan, require_publishable, require_matching_sets, plan_publish, is_newer,
}
use ai_chatbot.Platform.Versioning.Publish.Writes.{accepts_all}
use ai_chatbot.Platform.Versioning.Publish.Results.{publish_ok}
use ai_chatbot.Platform.Gate.Checks.{GateContext}
use ai_chatbot.Platform.Gate.Runs.{sme_required, record_sme_decision, report_of, run_gate}
use ai_chatbot.Platform.Gate.Approval.{
  run_gate-ok, linked_version, publishable_by, get_gate_report-add, get_gate_report-set_kb_status,
  get_gate_report-set_sme_decision, is_approved-decided, decided_by, decision_of,
}

get_kb_version-versions :
    (n : ℕ) (q r : Registry) → q.versions ≡ r.versions → get_kb_version n q ≡ get_kb_version n r
unfolding get_kb_version
get_kb_version-versions n q r h = rw h refl

set_sme_decision-versions :
    (id : String) (is_yes : Bool) (by : String) (comment : Option String) (now : ℕ) (r : Registry)
    → (set_sme_decision id (decision_of is_yes) by comment now r).1.versions ≡ r.versions
unfolding set_sme_decision
set_sme_decision-versions id is_yes by comment now r = ground arith

-- The state after a decision is that after its first statement; the second one reads.
record_sme_decision-state :
    (id : String) (by : String) (comment : Option String) (now : ℕ) (r : Registry)
    → (record_sme_decision id true by comment now r).1
      ≡ (set_sme_decision id (decision_of true) by comment now r).1
unfolding record_sme_decision
record_sme_decision-state id by comment now r =
    elim (Result-cases (set_sme_decision id (decision_of true) by comment now r).0) [
      | inl (a, e) ↦ rw e refl
      | inr (x, e) ↦ rw e refl
    ]

set_kb_status-distinct :
    (n now : ℕ) (id : String) (r : Registry)
    → DistinctIds r.versions
    → DistinctIds (set_kb_status n candidate (some id) now r).1.versions
unfolding set_kb_status
set_kb_status-distinct n now id r d =
    ground (arith, set_kb_status-DistinctIds n candidate (some id) now r.versions d)

module _ {F : Type 0} (id : String) (ctx : GateContext F)
    (checks : List (GateContext F → CheckResult)) (now : ℕ) (r : Registry) where
  abbrev n : ℕ
  n = ctx.manifest.version_id

  -- The registry after the gate run, and after an expert's yes to its report.
  abbrev pub gated : Registry
  gated = (run_gate id ctx checks now r).1

  abbrev pub released : String → Option String → ℕ → Registry
  released by comment later = (record_sme_decision id true by comment later gated).1

  module _ (by : String) (comment : Option String) (later : ℕ) where
    gated_report :
        (sme : Bool)
        → is_candidate ctx.manifest.status ≡ true
        → sme_required r ctx.manifest ≡ ok sme
        → any (λ old. old.report_id == id) r.reports ≡ false
        → DistinctIds r.versions
        → is_some (find_kb n r) ≡ true
        → (get_gate_report id gated ≡ ok (report_of id ctx checks sme now))
          × DistinctIds gated.versions
          × ((m : KnowledgeBaseManifest)
              → get_kb_version n gated ≡ ok m
              → (m.status ≡ candidate) × (m.gate_report_id ≡ some id) × (m.version_id ≡ n))
    gated_report sme c s fresh d known =
        let report = report_of id ctx checks sme now in
        let done = run_gate-ok id ctx checks now r sme c s fresh d known in
        let (added, found, versions) = get_gate_report-add id report r refl fresh in
        let stored = (add_gate_report report r).1 in
        let left : gated ≡ (set_kb_status n candidate (some id) now stored).1 =
          ap (λ p. p.1) done in
        (
          rw left (get_gate_report-set_kb_status id n now stored ∙ found),
          rw left (set_kb_status-distinct n now id stored (rw versions d)),
          λ m g. linked_version id n now r stored m versions known (rw left at g),
        )

    released_versions : (released by comment later).versions ≡ gated.versions
    released_versions =
        ap (λ q. q.versions) (record_sme_decision-state id by comment later gated)
        ∙ set_sme_decision-versions id true by comment later gated

    -- A candidate whose gate run passed and whose report an expert approved may be published.
    released_publishable :
        (sme : Bool) (m : KnowledgeBaseManifest)
        → is_candidate ctx.manifest.status ≡ true
        → sme_required r ctx.manifest ≡ ok sme
        → any (λ old. old.report_id == id) r.reports ≡ false
        → DistinctIds r.versions
        → is_some (find_kb n r) ≡ true
        → auto_passed (report_of id ctx checks sme now) ≡ true
        → get_kb_version n (released by comment later) ≡ ok m
        → is_newer (latest_published (released by comment later)) n ≡ false
        → (require_publishable m (released by comment later) ≡ ok tt)
          × (is_published m.status ≡ false)
          × DistinctIds (released by comment later).versions
    released_publishable sme m c s fresh d known passed g newest =
        let report = report_of id ctx checks sme now in
        let (found, distinct, link) = gated_report sme c s fresh d known in
        let (status, linked, numbered) = link m (
          sym (get_kb_version-versions n (released by comment later) gated released_versions)
          ∙ g) in
        let decided =
          get_gate_report-set_sme_decision id true by comment later gated report found in
        let there : get_gate_report id (released by comment later)
            ≡ ok (decided_by true by comment later report) =
          ap (get_gate_report id) (record_sme_decision-state id by comment later gated) ∙ decided in
        (
          publishable_by m id n (decided_by true by comment later report)
                (released by comment later) status linked numbered there
              ∙ ground (arith, is_approved-decided true by comment later report),
          rw status refl,
          rw released_versions distinct,
        )

    module _ (I : ServingIndex F) where
      -- The platform with that registry and an index.
      abbrev pub system_of : I.State → System I
      system_of i = record { registry = released by comment later; index = i }

      module _ (L : IsLawful I) where
        -- Where the ids of the versions are distinct, a candidate version of the registry whose
        -- gate run finds the documents that decide on an expert, has every check passed or skipped
        -- and leaves a report with a fresh id, which an expert has then approved, is published by
        -- `publish` when no newer version is published, the serving index is valid, the chunk sets
        -- are those of the version, their plan is made and the model and the dimension of their
        -- embeddings are accepted: the call returns, the version is published with its documents,
        -- and the serving alias names it.
        pub publish-released :
            (sme : Bool) (m : KnowledgeBaseManifest) (i : I.State) (sets : List (ChunkSet F))
            (plan : Plan)
            → is_candidate ctx.manifest.status ≡ true
            → sme_required r ctx.manifest ≡ ok sme
            → any (λ old. old.report_id == id) r.reports ≡ false
            → DistinctIds r.versions
            → is_some (find_kb n r) ≡ true
            → auto_passed (report_of id ctx checks sme now) ≡ true
            → get_kb_version n (released by comment later) ≡ ok m
            → is_newer (latest_published (released by comment later)) n ≡ false
            → L.IsValid i
            → require_matching_sets m sets ≡ ok tt
            → plan_publish I m sets (system_of i) ≡ ok plan
            → accepts_all I L sets ≡ true
            → (out : KnowledgeBaseManifest) × ((publish I n sets later (system_of i)).0 ≡ ok out)
              × (is_published out.status ≡ true)
              × (out.doc_versions ≡ m.doc_versions)
              × (get_alias serving_alias (publish I n sets later (system_of i)).1.registry ≡ some n)
        publish-released sme m i sets plan c s fresh d known passed g newest valid matching planned
              takes =
            let (may, open_, distinct) =
              released_publishable sme m c s fresh d known passed g newest in
            publish_ok I L n sets later (system_of i) m plan valid distinct g open_ may matching
              planned takes
