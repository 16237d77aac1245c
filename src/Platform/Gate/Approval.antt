-- ===== src/Platform/Gate/Approval.antt =====
-- When a version may be published after its gate run, and what the decision of an expert changes.
use ai_chatbot.Base.{
  ok_injective, ℕ, String, Bool, true, false, ◌&&◌, ◌||◌, not, Option, none, some, List, [], ◌∷◌,
  ◌≡◌, refl, ap, ◌∙◌, sym, arith, ok, raise, versioning, if◌then◌else◌, ◌==◌, string_eq, nat_eq,
  any, is_some, from_some,
}
use ai_chatbot.Base.State.{>>=-eq-ok}
use ai_chatbot.Base.Table.{find?, find?-append, find?-sound, find?-update_where, any-find?}
use ai_chatbot.Contracts.Enums.{candidate, is_candidate}
use ai_chatbot.Contracts.KnowledgeBase.{KnowledgeBaseManifest}
use ai_chatbot.Platform.Models.{
  CheckResult, GateReport, SmeDecision, approved, rejected, auto_passed, is_approved,
}
use ai_chatbot.Platform.Registry.{
  Registry, get_kb_version, find_kb, get_gate_report, latest_published, add_gate_report,
  set_kb_status, set_sme_decision, with_status, manifest_from_row,
}
use ai_chatbot.Platform.Registry.Laws.{DistinctIds, get_kb_version-set_kb_status, set_kb_status-ok}
use ai_chatbot.Platform.Registry.Additions.{find_kb-id, find_kb-versions}
use ai_chatbot.Platform.Versioning.Publish.{require_publishable, is_newer}
use ai_chatbot.Platform.Gate.Checks.{GateContext}
use ai_chatbot.Platform.Gate.Runs.{sme_required, record_sme_decision, report_of, run_gate}

abbrev pub decision_of : Bool → SmeDecision
decision_of is_yes = if is_yes then approved else rejected

abbrev pub decided_by : Bool → String → Option String → ℕ → GateReport → GateReport
decided_by is_yes by comment now report = record report {
  sme_decision = some (decision_of is_yes);
  sme_by = some by;
  sme_comment = comment;
  sme_at = some now;
}

-- The report after a decision: the decision, and the checks as they were.
pub get_gate_report-set_sme_decision :
    (id : String) (is_yes : Bool) (by : String) (comment : Option String) (now : ℕ) (r : Registry)
    (report : GateReport)
    → get_gate_report id r ≡ ok report
    → get_gate_report id (set_sme_decision id (decision_of is_yes) by comment now r).1
      ≡ ok (decided_by is_yes by comment now report)
unfolding get_gate_report set_sme_decision
get_gate_report-set_sme_decision id is_yes by comment now r report g =
    from_some (find? (λ x. x.report_id == id) r.reports) (ground arith) (λ x e. ground (
      arith,
      find?-sound (λ x. x.report_id == id) r.reports x e,
      find?-update_where (λ x. x.report_id == id) (λ x. x.report_id == id)
          (decided_by is_yes by comment now) r.reports (λ x. refl),
    ))

pub is_approved-decided :
    (is_yes : Bool) (by : String) (comment : Option String) (now : ℕ) (report : GateReport)
    → is_approved (decided_by is_yes by comment now report)
      ≡ (auto_passed report && (not report.requires_sme || is_yes))
unfolding is_approved auto_passed
is_approved-decided true by comment now report = ground arith
is_approved-decided false by comment now report = ground arith

-- The decision of an expert approves a report exactly if the checks passed and, where an expert is
-- required, it is a yes: it cannot stand in for a check that failed.
pub is_approved-record_sme_decision :
    (id : String) (is_yes : Bool) (by : String) (comment : Option String) (now : ℕ) (r t : Registry)
    (report decided : GateReport)
    → get_gate_report id r ≡ ok report
    → record_sme_decision id is_yes by comment now r ≡ (ok decided, t)
    → is_approved decided ≡ (auto_passed report && (not report.requires_sme || is_yes))
unfolding record_sme_decision
is_approved-record_sme_decision id is_yes by comment now r t report decided g h =
    let (_, _, h1) = >>=-eq-ok (set_sme_decision id (decision_of is_yes) by comment now) _ r h in
    rw
      (ok_injective (
        sym (ap (λ p. p.0) h1)
        ∙ get_gate_report-set_sme_decision id is_yes by comment now r report g))
      (is_approved-decided is_yes by comment now report)

pub get_gate_report-add :
    (id : String) (report : GateReport) (r : Registry)
    → report.report_id ≡ id
    → any (λ old. old.report_id == id) r.reports ≡ false
    → ((add_gate_report report r).0 ≡ ok tt)
      × (get_gate_report id (add_gate_report report r).1 ≡ ok report)
      × ((add_gate_report report r).1.versions ≡ r.versions)
unfolding get_gate_report add_gate_report find?
get_gate_report-add id report r e fresh = ground (
  arith,
  find?-append (λ old. old.report_id == id) r.reports (report ∷ []),
  any-find? (λ old. old.report_id == id) r.reports fresh,
)

is_approved-undecided :
    (report : GateReport)
    → report.sme_decision ≡ none
    → is_approved report ≡ (auto_passed report && not report.requires_sme)
unfolding is_approved
is_approved-undecided report h = ground (arith, h)

pub get_gate_report-set_kb_status :
    (id : String) (n now : ℕ) (r : Registry)
    → get_gate_report id (set_kb_status n candidate (some id) now r).1 ≡ get_gate_report id r
unfolding get_gate_report set_kb_status
get_gate_report-set_kb_status id n now r = refl

-- The version that a gate run was linked to.
pub linked_version :
    (id : String) (n now : ℕ) (r q : Registry) (m : KnowledgeBaseManifest)
    → q.versions ≡ r.versions
    → is_some (find_kb n r) ≡ true
    → get_kb_version n (set_kb_status n candidate (some id) now q).1 ≡ ok m
    → (m.status ≡ candidate) × (m.gate_report_id ≡ some id) × (m.version_id ≡ n)
unfolding get_kb_version with_status manifest_from_row
linked_version id n now r q m e known g = from_some (find_kb n r) known (λ row f. ground (
  arith,
  get_kb_version-set_kb_status n n candidate (some id) now q,
  find_kb-versions n q r e,
  find_kb-id n r row f,
))

pub publishable_by :
    (m : KnowledgeBaseManifest) (id : String) (n : ℕ) (report : GateReport) (t : Registry)
    → m.status ≡ candidate
    → m.gate_report_id ≡ some id
    → m.version_id ≡ n
    → get_gate_report id t ≡ ok report
    → require_publishable m t ≡ (
        if is_approved report && not (is_newer (latest_published t) n)
        then ok tt
        else raise versioning)
unfolding require_publishable
publishable_by m id n report t c l i g = rw (c, l, i, g) (ground arith)

module _ {F : Type 0} (id : String) (ctx : GateContext F)
    (checks : List (GateContext F → CheckResult)) (now : ℕ) (r : Registry) where
  abbrev n : ℕ
  n = ctx.manifest.version_id

  -- A gate run of a version in the registry returns the report of its checks, which is then linked
  -- to the version; the run raises when the manifest at hand is no candidate, or has an unknown
  -- parent.
  pub run_gate-ok :
      (sme : Bool)
      → is_candidate ctx.manifest.status ≡ true
      → sme_required r ctx.manifest ≡ ok sme
      → any (λ old. old.report_id == id) r.reports ≡ false
      → DistinctIds r.versions
      → is_some (find_kb n r) ≡ true
      → run_gate id ctx checks now r ≡ (
        ok (report_of id ctx checks sme now),
        (set_kb_status n candidate
            (some id)
            now
            (add_gate_report (report_of id ctx checks sme now) r).1).1,
      )
  unfolding run_gate
  run_gate-ok sme c s fresh d known =
      let (added, _, versions) =
        get_gate_report-add id (report_of id ctx checks sme now) r refl fresh in
      let stored = (add_gate_report (report_of id ctx checks sme now) r).1 in
      rw
        (
          c,
          s,
          added,
          set_kb_status-ok n candidate (some id) now stored (rw versions d)
              (rw (find_kb-versions n stored r versions) known),
        )
        refl

  -- After a gate run, a version passes the checks of `publish` exactly if every check of the run
  -- passed or was skipped, no expert is required, and no newer version is published.
  pub require_publishable-run_gate :
      (sme : Bool) (m : KnowledgeBaseManifest)
      → is_candidate ctx.manifest.status ≡ true
      → sme_required r ctx.manifest ≡ ok sme
      → any (λ old. old.report_id == id) r.reports ≡ false
      → DistinctIds r.versions
      → is_some (find_kb n r) ≡ true
      → get_kb_version n (run_gate id ctx checks now r).1 ≡ ok m
      → ((run_gate id ctx checks now r).0 ≡ ok (report_of id ctx checks sme now))
        × (require_publishable m (run_gate id ctx checks now r).1 ≡ (
            if auto_passed (report_of id ctx checks sme now)
              && (not sme && not (is_newer (latest_published (run_gate id ctx checks now r).1) n))
            then ok tt
            else raise versioning))
  require_publishable-run_gate sme m c s fresh d known g =
      let done = run_gate-ok sme c s fresh d known in
      let report = report_of id ctx checks sme now in
      let (added, found, versions) = get_gate_report-add id report r refl fresh in
      let stored = (add_gate_report report r).1 in
      let (status, linked, numbered) =
        linked_version id n now r stored m versions known (rw done at g) in
      (
        rw done refl,
        rw done (
            publishable_by m id n report _ status linked numbered
              (get_gate_report-set_kb_status id n now stored ∙ found)
            ∙ ground (arith, is_approved-undecided report refl)),
      )
