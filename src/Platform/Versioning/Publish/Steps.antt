-- ===== src/Platform/Versioning/Publish/Steps.antt =====
-- The writes of a publication, one after the other: on the index, then on the registry.
use ai_chatbot.Base.{
  ℕ, List, [], ◌∷◌, map, none, ◌≡◌, refl, ◌∙◌, minus, string_eq, Result-cases, inl, inr,
}
use ai_chatbot.Base.State.{
  M, ◌>>=◌, ◌>>◌, reading, run_writes, run_writes-append, run_writes-split, run_writes-two,
  run_writes-then, >>-alike,
}
use ai_chatbot.Contracts.KnowledgeBase.{ChunkSet, KnowledgeBaseManifest}
use ai_chatbot.Contracts.Enums.{published}
use ai_chatbot.Platform.Models.{serving_alias}
use ai_chatbot.Platform.Registry.{get_kb_version, set_alias, set_kb_status}
use ai_chatbot.Platform.Index.{ServingIndex}
use ai_chatbot.Platform.Versioning.Publish.Reads.{
  Plan, System, on_index, on_registry, require_publishable, require_matching_sets, plan_publish,
}
use ai_chatbot.Platform.Versioning.Publish.{
  add_chunk_sets, index_writes, registry_writes, publish_writes, publish_candidate,
}

module _ {F : Type 0} (I : ServingIndex F) where
  -- The writes on the index as one statement.
  unfoldable pub write_index : ℕ → List (ChunkSet F) → Plan → M I.State (Unit {0})
  write_index n sets plan = run_writes (index_writes I n sets plan)

  -- The writes on the registry, and the manifest that `publish` returns.
  unfoldable pub write_registry : ℕ → ℕ → M (System I) KnowledgeBaseManifest
  write_registry n now = do
    on_registry I (set_alias serving_alias n now)
    on_registry I (set_kb_status n published none now)
    reading (λ s. get_kb_version n s.registry)

  pub write_index-parts :
      (n : ℕ) (sets : List (ChunkSet F)) (plan : Plan) (i : I.State)
      → write_index n sets plan i
        ≡ (add_chunk_sets I sets
              >> (I.close_intervals (minus plan.active plan.target) n
                  >> I.open_intervals (minus plan.target plan.active) n))
            i
  unfolding write_index index_writes add_chunk_sets
  write_index-parts n sets plan i =
      let close = I.close_intervals (minus plan.active plan.target) n in
      let open_ = I.open_intervals (minus plan.target plan.active) n in
      let adds = map I.add_chunk_set sets in
      run_writes-split adds (close ∷ open_ ∷ []) i
      ∙ >>-alike (run_writes adds) (run_writes (close ∷ open_ ∷ [])) (close >> open_) i
          (run_writes-two close open_ (run_writes adds i).1)

  run_writes-on_index :
      {B : Type 0} (ws : List (M I.State (Unit {0}))) (k : M (System I) B) (s : System I)
      → (run_writes (map (on_index I) ws) >> k) s ≡ (on_index I (run_writes ws) >> k) s
  run_writes-on_index [] k s = refl
  run_writes-on_index (w ∷ ws) k s = elim (Result-cases (w s.index).0) [
    | inl (a, e) ↦ rw e (run_writes-on_index ws k (record s { index = (w s.index).1 }))
    | inr (x, e) ↦ rw e refl
  ]

  pub run-publish_writes :
      (n : ℕ) (sets : List (ChunkSet F)) (plan : Plan) (now : ℕ) (s : System I)
      → (run_writes (publish_writes I n sets plan now)
            >> reading (λ t. get_kb_version n t.registry))
          s
        ≡ (on_index I (write_index n sets plan) >> write_registry n now) s
  unfolding publish_writes registry_writes write_index write_registry
  run-publish_writes n sets plan now s =
      run_writes-append (map (on_index I) (index_writes I n sets plan)) (registry_writes I n now) _
        s
      ∙ run_writes-on_index (index_writes I n sets plan) _ s
      ∙ >>-alike (on_index I (write_index n sets plan)) _ _ s (
          run_writes-then (on_registry I (set_alias serving_alias n now))
            (on_registry I (set_kb_status n published none now)) _ _)

  -- A publication as its parts.
  pub publish_candidate-parts :
      (m : KnowledgeBaseManifest) (n : ℕ) (sets : List (ChunkSet F)) (now : ℕ) (s : System I)
      → publish_candidate I m n sets now s
        ≡ (reading (λ u. require_publishable m u.registry)
              >> (reading (λ _. require_matching_sets m sets)
                  >> (reading (plan_publish I m sets)
                      >>= (λ plan. on_index I (write_index n sets plan) >> write_registry n now))))
            s
  unfolding publish_candidate
  publish_candidate-parts m n sets now s = elim (Result-cases (require_publishable m s.registry)) [
    | inr (x, e) ↦ rw e refl
    | inl (a, e) ↦ elim (Result-cases (require_matching_sets m sets)) [
      | inr (x, f) ↦ rw (e, f) refl
      | inl (b, f) ↦ elim (Result-cases (plan_publish I m sets s)) [
        | inr (x, g) ↦ rw (e, f, g) refl
        | inl (plan, g) ↦ rw (e, f, g) (run-publish_writes n sets plan now s)
      ]
    ]
  ]
