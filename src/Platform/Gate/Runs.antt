-- ===== src/Platform/Gate/Runs.antt =====
-- `run_gate` and the decision of an expert: what a gate run leaves in the registry, and when a
-- version may be published after it.
use ai_chatbot.Base.{
  ℕ, String, Bool, true, not, Option, none, some, List, map, Result, ok, raise, versioning,
  if◌then◌else◌, string_eq, nat_eq, minus,
}
use ai_chatbot.Base.State.{M, ◌>>=◌, ◌>>◌, pure, gets, reading, guard}
use ai_chatbot.Contracts.Enums.{candidate, is_candidate}
use ai_chatbot.Contracts.KnowledgeBase.{KnowledgeBaseManifest}
use ai_chatbot.Platform.Models.{CheckResult, GateReport, approved, rejected}
use ai_chatbot.Platform.Registry.{
  Registry, get_kb_version, get_gate_report, add_gate_report, set_kb_status, set_sme_decision,
}
use ai_chatbot.Platform.Gate.Checks.{GateContext, is_empty}

unfoldable pub sme_required : Registry → KnowledgeBaseManifest → Result Bool
sme_required r m = elim m.parent_version [
  | none ↦ ok true
  | some n ↦ elim (get_kb_version n r) [
    | ok parent ↦ ok (not (is_empty (minus m.doc_versions parent.doc_versions)))
    | raise e ↦ raise e
  ]
]

-- `record_sme_decision`
unfoldable pub record_sme_decision :
    String → Bool → String → Option String → ℕ → M Registry GateReport
record_sme_decision id is_yes by comment now = do
  set_sme_decision id (if is_yes then approved else rejected) by comment now
  reading (get_gate_report id)

module _ {F : Type 0} where
  -- The report of the checks; `id` is the fresh id that `uuid4` gives.
  abbrev pub report_of :
      String → GateContext F → List (GateContext F → CheckResult) → Bool → ℕ → GateReport
  report_of id ctx checks sme now = record {
    report_id = id;
    version_id = ctx.manifest.version_id;
    checks = map (λ check. check ctx) checks;
    requires_sme = sme;
    created_at = now;
    sme_decision = none;
    sme_by = none;
    sme_comment = none;
    sme_at = none;
  }

  unfoldable pub run_gate :
      String → GateContext F → List (GateContext F → CheckResult) → ℕ → M Registry GateReport
  unfolding sme_required
  run_gate id ctx checks now = do
    guard (is_candidate ctx.manifest.status) versioning
    sme ← reading (λ r. sme_required r ctx.manifest)
    report ← gets (λ _. report_of id ctx checks sme now)
    add_gate_report report
    set_kb_status ctx.manifest.version_id candidate (some id) now
    pure report
