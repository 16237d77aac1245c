-- ===== src/Platform/Versioning/Publish/Stops.antt =====
-- The states in which a publication that is stopped leaves the system.
use ai_chatbot.Base.{
  ℕ, ◌<◌, String, Bool, true, false, Option, none, some, List, [], ◌∷◌, map, ◌≡◌, refl, ap, ◌∙◌,
  arith, ok, Option-cases, inl, inr, contains, contains-minus, all, all-append, minus, string_eq,
}
use ai_chatbot.Contracts.KnowledgeBase.{ChunkSet, KnowledgeBaseManifest}
use ai_chatbot.Platform.Models.{serving_alias, StoredChunk}
use ai_chatbot.Platform.Registry.{set_alias}
use ai_chatbot.Platform.Registry.Laws.{set_alias-versions}
use ai_chatbot.Platform.Index.{
  ServingIndex, IsLawful, Interval, is_visible, close_at, is_visible-close,
}
use ai_chatbot.Platform.Versioning.Publish.{add_chunk_sets}
use ai_chatbot.Platform.Versioning.Publish.Reads.{Plan, System, plan_publish, id_of_latest}
use ai_chatbot.Platform.Versioning.Publish.Plans.{shown_alike, is_target, plan_lem}
use ai_chatbot.Platform.Versioning.Publish.Timeline.{
  is_resumable, publish_at, is_visible-publish_at,
}
use ai_chatbot.Platform.Versioning.Publish.Writes.{
  Written, opened, closed, added, opened-Written, add_chunk_sets-intervals, add_chunk_sets-keeps,
  add_chunk_sets-IsValid,
}
use ai_chatbot.Platform.Versioning.Publish.Visible.{target_backed}

resumable-close :
    (l n : ℕ) (xs : List Interval)
    → all (is_resumable l n false) xs ≡ true
    → all (is_resumable l n false) (map (close_at n) xs) ≡ true
resumable-close l n [] h = refl
resumable-close l n ((start, none) ∷ xs) h = ground (arith, resumable-close l n xs)
resumable-close l n ((start, some stop) ∷ xs) h = ground (arith, resumable-close l n xs)

-- What a publication makes of the intervals can be published again.
resumable-publish_at :
    (l n : ℕ) (active wanted : Bool) (xs : List Interval)
    → all (is_resumable l n wanted) xs ≡ true
    → all (is_resumable l n wanted) (publish_at n active wanted xs) ≡ true
resumable-publish_at l n active true xs h =
    ground (arith, all-append (is_resumable l n true) xs ((n, none) ∷ []))
resumable-publish_at l n active false xs h = ground (arith, resumable-close l n xs h)

module _ {F : Type 0} (I : ServingIndex F) (L : IsLawful I) where
  open L use {IsValid, intervals, stored}

  -- The forms of the state that some of the writes leave, but not all of them: chunk sets are added,
  -- the intervals are closed too, they are opened too, the alias is set too.
  pub data Stopped (n : ℕ) (sets : List (ChunkSet F)) (plan : Plan) (now : ℕ) (s : System I)
      : System I → Type 0 where
    adding :
        (done : List (ChunkSet F))
        → Stopped n sets plan now s (record s { index = (add_chunk_sets I done s.index).1 })
    closing :
        (add_chunk_sets I sets s.index).0 ≡ ok tt
        → Stopped n sets plan now s (record s { index = closed I L n sets plan s.index })
    opening :
        (add_chunk_sets I sets s.index).0 ≡ ok tt
        → Stopped n sets plan now s (record s { index = opened I L n sets plan s.index })
    aliasing :
        (add_chunk_sets I sets s.index).0 ≡ ok tt
        → Stopped n sets plan now s (record {
          registry = (set_alias serving_alias n now s.registry).1;
          index = opened I L n sets plan s.index;
        })

  -- What a stop leaves of the index.
  pub record Left (l n : ℕ) (plan : Plan) (i j : I.State) : Type 0 where
    pub valid : IsValid j
    pub seen :
        (c : String) (k : ℕ) → k < n → is_visible (intervals j c) k ≡ is_visible (intervals i c) k
    pub keeps : (c : String) (x : StoredChunk F) → stored i c ≡ some x → stored j c ≡ some x
    pub resumable :
        (c : String)
        → all (is_resumable l n (contains plan.target c)) (intervals i c) ≡ true
        → all (is_resumable l n (contains plan.target c)) (intervals j c) ≡ true

  added-Left :
      (l n : ℕ) (plan : Plan) (sets : List (ChunkSet F)) (i : I.State)
      → IsValid i
      → Left l n plan i (add_chunk_sets I sets i).1
  added-Left l n plan sets i v = record {
    valid = add_chunk_sets-IsValid I L sets i v;
    seen = λ c k h. ap (λ xs. is_visible xs k) (add_chunk_sets-intervals I L sets i c);
    keeps = λ c x e. add_chunk_sets-keeps I L sets i c x e;
    resumable = λ c h. rw (add_chunk_sets-intervals I L sets i c) h;
  }

  closed-Left :
      (l n : ℕ) (plan : Plan) (sets : List (ChunkSet F)) (i : I.State)
      → IsValid i
      → Left l n plan i (closed I L n sets plan i)
  closed-Left l n plan sets i v =
      let before = added-Left l n plan sets i v in
      record {
        valid = L.close_valid _ _ n before.valid;
        seen = λ c k h. ground (
          arith,
          L.close_intervals_lem (added I L n sets plan i) (minus plan.active plan.target) n c,
          add_chunk_sets-intervals I L sets i c,
          is_visible-close n k (intervals i c) h,
        );
        keeps = λ c x e. L.close_stored _ _ n c ∙ before.keeps c x e;
        resumable = λ c h. ground (
          arith,
          L.close_intervals_lem (added I L n sets plan i) (minus plan.active plan.target) n c,
          add_chunk_sets-intervals I L sets i c,
          contains-minus c plan.active plan.target,
          resumable-close l n (intervals i c),
        );
      }

  opened-Left :
      (l n : ℕ) (plan : Plan) (sets : List (ChunkSet F)) (i : I.State)
      → Written I L n sets plan i (opened I L n sets plan i)
      → Left l n plan i (opened I L n sets plan i)
  opened-Left l n plan sets i w = record {
    valid = w.valid;
    seen = λ c k h. rw (w.shape c) (
        is_visible-publish_at n k (contains plan.active c) (contains plan.target c) (intervals i c)
          h);
    keeps = w.keeps;
    resumable = λ c h. rw (w.shape c) (
        resumable-publish_at l n (contains plan.active c) (contains plan.target c) (intervals i c)
          h);
  }

  shown_alike-Left :
      (l n : ℕ) (plan : Plan) (i j : I.State) (m : KnowledgeBaseManifest)
      (source : Option KnowledgeBaseManifest) (c : String)
      → Left l n plan i j
      → id_of_latest source < n
      → shown_alike I L m source j c ≡ shown_alike I L m source i c
  shown_alike-Left l n plan i j m none c left lt = refl
  shown_alike-Left l n plan i j m (some p) c left lt = ground (arith, left.seen c p.version_id lt)

  hidden_alike :
      (i : I.State) (m : KnowledgeBaseManifest) (source : Option KnowledgeBaseManifest) (c : String)
      → IsValid i
      → stored i c ≡ none
      → shown_alike I L m source i c ≡ false
  hidden_alike i m none c v e = refl
  hidden_alike i m (some p) c v e = ground (arith, L.stored_of_visible i v c p.version_id)

  -- A stop changes no target.
  pub is_target-Left :
      (l n : ℕ) (plan : Plan) (i j : I.State) (m : KnowledgeBaseManifest)
      (latest parent : Option KnowledgeBaseManifest) (sets : List (ChunkSet F)) (c : String)
      → IsValid i
      → Left l n plan i j
      → id_of_latest latest < n
      → id_of_latest parent < n
      → is_target I L m latest parent sets j c ≡ is_target I L m latest parent sets i c
  is_target-Left l n plan i j m latest parent sets c v left lt lt' =
      elim (Option-cases (stored i c)) [
        | inl e ↦ ground (
          arith,
          shown_alike-Left l n plan i j m latest c left lt,
          shown_alike-Left l n plan i j m parent c left lt',
          hidden_alike i m latest c v e,
          hidden_alike i m parent c v e,
        )
        | inr (x, e) ↦ ground (
          arith,
          shown_alike-Left l n plan i j m latest c left lt,
          shown_alike-Left l n plan i j m parent c left lt',
          left.keeps c x e,
        )
      ]

  pub Stopped-Left :
      (l n : ℕ) (m : KnowledgeBaseManifest) (sets : List (ChunkSet F)) (plan : Plan) (now : ℕ)
      (s t : System I)
      → IsValid s.index
      → plan_publish I m sets s ≡ ok plan
      → Stopped n sets plan now s t
      → Left l n plan s.index t.index × (t.registry.versions ≡ s.registry.versions)
  Stopped-Left l n m sets plan now s t v p (adding done) =
      (added-Left l n plan done s.index v, refl)
  Stopped-Left l n m sets plan now s t v p (closing a) = (closed-Left l n plan sets s.index v, refl)
  Stopped-Left l n m sets plan now s t v p (opening a) = (
    opened-Left l n plan sets s.index (
        opened-Written I L n sets plan s.index v
          (target_backed I L m sets s plan v (plan_lem I L m sets s plan v p)) a),
    refl,
  )
  Stopped-Left l n m sets plan now s t v p (aliasing a) = (
    opened-Left l n plan sets s.index (
        opened-Written I L n sets plan s.index v
          (target_backed I L m sets s plan v (plan_lem I L m sets s plan v p)) a),
    (set_alias-versions serving_alias n now s.registry).1,
  )
