-- ===== src/Platform/Versioning/Publish/Restart.antt =====
-- A publication that was stopped between two of its writes, and is run again.
use ai_chatbot.Base.{
  ok_injective, ℕ, ◌<◌, String, true, false, Option, none, some, List, ◌≡◌, refl, ap, ◌∙◌, sym,
  arith, ok, contains, all, string_eq, inl, inr,
}
use ai_chatbot.Contracts.Enums.{is_published}
use ai_chatbot.Contracts.KnowledgeBase.{ChunkSet, KnowledgeBaseManifest}
use ai_chatbot.Platform.Registry.{Registry, get_kb_version, latest_published}
use ai_chatbot.Platform.Registry.Laws.{DistinctIds}
use ai_chatbot.Platform.Index.{ServingIndex, IsLawful, is_visible}
use ai_chatbot.Platform.Versioning.Candidate.{truthy}
use ai_chatbot.Platform.Versioning.Publish.{publish, add_chunk_sets}
use ai_chatbot.Platform.Versioning.Publish.Steps.{write_registry, publish_candidate-parts}
use ai_chatbot.Platform.Versioning.Publish.Writes.{write_index_lem}
use ai_chatbot.Platform.Versioning.Publish.Visible.{target_backed}
use ai_chatbot.Platform.Versioning.Publish.Halts.{stopped_after, finished, stopped_after-Stopped}
use ai_chatbot.Platform.Versioning.Publish.Reads.{
  Plan, System, plan_publish, parent_of, id_of_latest, require_publishable, require_matching_sets,
}
use ai_chatbot.Platform.Versioning.Publish.Plans.{is_target, plan_lem}
use ai_chatbot.Platform.Versioning.Publish.Timeline.{is_resumable}
use ai_chatbot.Platform.Versioning.Publish.Results.{publish_visible, publish_open, published_row}
use ai_chatbot.Platform.Versioning.Publish.Stops.{Stopped, is_target-Left, Stopped-Left}

latest_published-versions :
    (q r : Registry) → q.versions ≡ r.versions → latest_published q ≡ latest_published r
unfolding latest_published
latest_published-versions q r h = rw h refl

get_kb_version-versions :
    (n : ℕ) (q r : Registry) → q.versions ≡ r.versions → get_kb_version n q ≡ get_kb_version n r
unfolding get_kb_version
get_kb_version-versions n q r h = rw h refl

module _ {F : Type 0} (I : ServingIndex F) (L : IsLawful I) where
  open L use {IsValid, intervals, stored}

  parent_of-versions :
      (parent : Option ℕ) (q r : Registry)
      → q.versions ≡ r.versions
      → parent_of I parent q ≡ parent_of I parent r
  parent_of-versions none q r h = refl
  parent_of-versions (some n) q r h = rw (parent_of, get_kb_version-versions n q r h) refl

  -- The restart of a publication that has not set the status.
  restart_open :
      (n : ℕ) (sets : List (ChunkSet F)) (now later : ℕ) (s t u : System I)
      (m out : KnowledgeBaseManifest) (parent : Option KnowledgeBaseManifest) (plan : Plan)
      → IsValid s.index
      → DistinctIds s.registry.versions
      → id_of_latest (latest_published s.registry) < n
      → id_of_latest parent < n
      → get_kb_version n s.registry ≡ ok m
      → is_published m.status ≡ false
      → parent_of I (truthy m.parent_version) s.registry ≡ ok parent
      → ((c : String) → is_visible (intervals s.index c) 0 ≡ false)
      → ((c : String)
          → all
              (is_resumable
                (id_of_latest (latest_published s.registry))
                n
                (is_target I L m (latest_published s.registry) parent sets s.index c))
              (intervals s.index c)
            ≡ true)
      → plan_publish I m sets s ≡ ok plan
      → Stopped I L n sets plan now s t
      → publish I n sets later t ≡ (ok out, u)
      → (c : String)
      → is_visible (intervals u.index c) n
        ≡ is_target I L m (latest_published s.registry) parent sets s.index c
  restart_open n sets now later s t u m out parent plan v d lt lt' g open_ par zero_ res p stop h
        c =
      let latest = latest_published s.registry in
      let says = plan_lem I L m sets s plan v p in
      let (left, same) = Stopped-Left I L (id_of_latest latest) n m sets plan now s t v p stop in
      let el = latest_published-versions t.registry s.registry same in
      let ep = ok_injective (sym says.parent_found ∙ par) in
      let keeps_target : (k : String)
          → is_target I L m (latest_published t.registry) parent sets t.index k
            ≡ is_target I L m latest parent sets s.index k =
        λ k. rw el (
          is_target-Left I L (id_of_latest latest) n plan s.index t.index m latest parent sets k v
            left lt lt') in
      let target : (k : String)
          → contains plan.target k ≡ is_target I L m latest parent sets s.index k =
        λ k. says.target k ∙ ap (λ o. is_target I L m latest o sets s.index k) ep in
      publish_visible I L n sets later t u m out parent left.valid (rw same d) (ground arith)
        (get_kb_version-versions n t.registry s.registry same ∙ g) open_
        (parent_of-versions (truthy m.parent_version) t.registry s.registry same ∙ par)
        (λ k. left.seen k 0 (ground arith) ∙ zero_ k)
        (λ k. rw (keeps_target k, el, sym (target k)) (left.resumable k (rw (target k) (res k)))) h
        c
      ∙ keeps_target c

  -- The writes that are all done are those of a publication that returns, and that does nothing when
  -- it is run again.
  publish-finished :
      (n : ℕ) (sets : List (ChunkSet F)) (now later : ℕ) (s : System I) (m : KnowledgeBaseManifest)
      (plan : Plan)
      → IsValid s.index
      → DistinctIds s.registry.versions
      → get_kb_version n s.registry ≡ ok m
      → is_published m.status ≡ false
      → require_publishable m s.registry ≡ ok tt
      → require_matching_sets m sets ≡ ok tt
      → plan_publish I m sets s ≡ ok plan
      → (add_chunk_sets I sets s.index).0 ≡ ok tt
      → (out : KnowledgeBaseManifest) × (publish I n sets now s
          ≡ (ok out, finished I L n plan sets now s))
        × (publish I n sets later (finished I L n plan sets now s)
            ≡ (ok out, finished I L n plan sets now s))
  unfolding publish write_registry
  publish-finished n sets now later s m plan v d g open_ may matching planned all_added =
      let back = target_backed I L m sets s plan v (plan_lem I L m sets s plan v planned) in
      let (out, aliased, set_, found, status, _, _) = published_row n now s.registry m d g in
      (
        out,
        publish_open I L n sets now s m g open_
            ∙ publish_candidate-parts I m n sets now s
            ∙ rw
                (
                  may,
                  matching,
                  planned,
                  write_index_lem I L n sets plan s.index v back all_added,
                  aliased,
                  set_,
                  found,
                )
                refl,
        rw (found, status) refl,
      )

  -- A publication of an unpublished version that passed its checks and made its plan, was stopped
  -- after any number of its writes, from none to all, and is run again until it returns, shows at
  -- its version the chunks that it would have shown without the stop: those that are its targets
  -- before the first of the writes. The index keeps the contract of the port and is valid before
  -- them, the version ids differ, the version is above the latest published one, its parent, if it
  -- names one, is found below it, nothing is visible at 0, and the intervals that start or end
  -- after the latest version are those of an earlier try at the same publication.
  pub publish_restart :
      (k n : ℕ) (sets : List (ChunkSet F)) (now later : ℕ) (s u : System I)
      (m out : KnowledgeBaseManifest) (parent : Option KnowledgeBaseManifest) (plan : Plan)
      → IsValid s.index
      → DistinctIds s.registry.versions
      → id_of_latest (latest_published s.registry) < n
      → id_of_latest parent < n
      → get_kb_version n s.registry ≡ ok m
      → is_published m.status ≡ false
      → require_publishable m s.registry ≡ ok tt
      → require_matching_sets m sets ≡ ok tt
      → parent_of I (truthy m.parent_version) s.registry ≡ ok parent
      → ((c : String) → is_visible (intervals s.index c) 0 ≡ false)
      → ((c : String)
          → all
              (is_resumable
                (id_of_latest (latest_published s.registry))
                n
                (is_target I L m (latest_published s.registry) parent sets s.index c))
              (intervals s.index c)
            ≡ true)
      → plan_publish I m sets s ≡ ok plan
      → publish I n sets later (stopped_after I k n sets plan now s) ≡ (ok out, u)
      → (c : String)
      → is_visible (intervals u.index c) n
        ≡ is_target I L m (latest_published s.registry) parent sets s.index c
  publish_restart k n sets now later s u m out parent plan v d lt lt' g open_ may matching par zero_
        res p h c =
      let back = target_backed I L m sets s plan v (plan_lem I L m sets s plan v p) in
      elim (stopped_after-Stopped I L n plan sets now s k v back) [
        | inl stop ↦
            restart_open n sets now later s _ u m out parent plan v d lt lt' g open_ par zero_ res p
              stop h c
        | inr (all_added, q) ↦
            let (made, first, again) =
              publish-finished n sets now later s m plan v d g open_ may matching p all_added in
            let same : finished I L n plan sets now s ≡ u =
              ap (λ r. r.1) (sym again ∙ ap (publish I n sets later) (sym q) ∙ h) in
            ap (λ t. is_visible (intervals t.index c) n) (sym same)
            ∙ publish_visible I L n sets now s (finished I L n plan sets now s) m made parent v d
                (ground arith) g open_ par zero_ res first c
      ]
