-- ===== src/Platform/Versioning/Publish/Served.antt =====
-- A publication that returns: what it had checked, and what the version shows afterwards.
use ai_chatbot.Base.{
  ℕ, ◌<◌, String, true, false, some, List, ◌≡◌, ap, ◌∙◌, sym, arith, ok, Result-cases, Option-cases,
  inl, inr, string_eq, from_some,
}
use ai_chatbot.Base.State.{>>=-eq-ok, reading}
use ai_chatbot.Contracts.Enums.{is_candidate, is_published}
use ai_chatbot.Contracts.KnowledgeBase.{ChunkSet, KnowledgeBaseManifest}
use ai_chatbot.Platform.Models.{GateReport, is_approved}
use ai_chatbot.Platform.Registry.{Registry, get_kb_version, latest_published, get_gate_report}
use ai_chatbot.Platform.Registry.Laws.{DistinctIds, get_kb_version-id, latest_published-status}
use ai_chatbot.Platform.Index.{ServingIndex, IsLawful}
use ai_chatbot.Platform.Versioning.Publish.{publish_candidate, add_chunk_sets}
use ai_chatbot.Platform.Versioning.Publish.Steps.{write_index, publish_candidate-parts}
use ai_chatbot.Platform.Versioning.Publish.Reads.{
  Plan, System, require_publishable, require_matching_sets, plan_publish, is_newer, id_of_latest,
  on_index,
}
use ai_chatbot.Platform.Versioning.Publish.Writes.{write_index_raise}
use ai_chatbot.Platform.Versioning.Publish.Visible.{write_registry_index}

-- What `_require_publishable` lets pass.
pub record Publishable (m : KnowledgeBaseManifest) (r : Registry) : Type 0 where
  pub candidate : is_candidate m.status ≡ true
  pub report : GateReport
  pub id : String
  pub linked : m.gate_report_id ≡ some id
  pub reported : get_gate_report id r ≡ ok report
  pub approved : is_approved report ≡ true
  pub newest : is_newer (latest_published r) m.version_id ≡ false

pub require_publishable_lem :
    (m : KnowledgeBaseManifest) (r : Registry) → require_publishable m r ≡ ok tt → Publishable m r
unfolding require_publishable
require_publishable_lem m r h = from_some m.gate_report_id (ground arith) (λ id e.
    elim (Result-cases (get_gate_report id r)) [
      | inl (report, f) ↦ record {
        candidate = ground arith;
        report = report;
        id = id;
        linked = e;
        reported = f;
        approved = ground arith;
        newest = ground arith;
      }
      | inr (x, f) ↦ absurd (ground arith)
    ])

-- A candidate that may be published is above the latest published version.
pub latest-lt :
    (n : ℕ) (m : KnowledgeBaseManifest) (r : Registry)
    → DistinctIds r.versions
    → 0 < n
    → get_kb_version n r ≡ ok m
    → is_published m.status ≡ false
    → is_newer (latest_published r) m.version_id ≡ false
    → id_of_latest (latest_published r) < n
latest-lt n m r d pos g open_ newest = elim (Option-cases (latest_published r)) [
  | inl e ↦ rw e pos
  | inr (q, e) ↦ ground (arith, get_kb_version-id n r m g, latest_published-status r q m d e)
]

module _ {F : Type 0} (I : ServingIndex F) (L : IsLawful I) where
  open L use {IsValid, intervals, stored}

  -- The parts of a publication that returned.
  pub record Done (m : KnowledgeBaseManifest) (n : ℕ) (sets : List (ChunkSet F)) (s t : System I)
      : Type 0 where
    pub publishable : Publishable m s.registry
    pub matching : require_matching_sets m sets ≡ ok tt
    pub plan : Plan
    pub planned : plan_publish I m sets s ≡ ok plan
    pub all_added : (add_chunk_sets I sets s.index).0 ≡ ok tt
    pub index : t.index ≡ (write_index I n sets plan s.index).1

  pub all_added_of_wrote :
      (n : ℕ) (sets : List (ChunkSet F)) (plan : Plan) (i : I.State) (a : Unit {0})
      → (write_index I n sets plan i).0 ≡ ok a
      → (add_chunk_sets I sets i).0 ≡ ok tt
  all_added_of_wrote n sets plan i a h = elim (Result-cases (add_chunk_sets I sets i).0) [
    | inl (_, e) ↦ e
    | inr (x, e) ↦ absurd (ground (arith, write_index_raise I L n sets plan i e))
  ]

  pub publish_candidate_lem :
      (m out : KnowledgeBaseManifest) (n : ℕ) (sets : List (ChunkSet F)) (now : ℕ) (s t : System I)
      → publish_candidate I m n sets now s ≡ (ok out, t)
      → Done m n sets s t
  publish_candidate_lem m out n sets now s t h =
      let (_, checked, h1) =
        >>=-eq-ok (reading (λ u. require_publishable m u.registry)) _ s
          (sym (publish_candidate-parts I m n sets now s) ∙ h) in
      let (_, matched, h2) = >>=-eq-ok (reading (λ _. require_matching_sets m sets)) _ s h1 in
      let (plan, planned, h3) = >>=-eq-ok (reading (plan_publish I m sets)) _ s h2 in
      let (a, wrote, h4) = >>=-eq-ok (on_index I (write_index I n sets plan)) _ s h3 in
      record {
        publishable = require_publishable_lem m s.registry checked;
        matching = matched;
        plan = plan;
        planned = planned;
        all_added = all_added_of_wrote n sets plan s.index a wrote;
        index = ap (λ p. p.1.index) (sym h4) ∙ write_registry_index I L n now _;
      }
