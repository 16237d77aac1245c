-- ===== src/Platform/Versioning/Publish/Halts.antt =====
-- The state after any number of the writes of a publication.
use ai_chatbot.Base.{
  ℕ, zero, suc, String, true, ◌||◌, List, [], ◌∷◌, ◌++◌, map, take, none, ◌≡◌, refl, ap, ◌∙◌, ok,
  ◌⊎◌, inl, inr, Result-cases, contains, is_some, minus, string_eq,
}
use ai_chatbot.Base.State.{M, run_writes, run_writes-last, run_writes-two, >>-ok}
use ai_chatbot.Contracts.Enums.{published}
use ai_chatbot.Contracts.KnowledgeBase.{ChunkSet}
use ai_chatbot.Platform.Models.{serving_alias}
use ai_chatbot.Platform.Registry.{set_alias, set_kb_status}
use ai_chatbot.Platform.Registry.Laws.{set_alias-versions}
use ai_chatbot.Platform.Index.{ServingIndex, IsLawful}
use ai_chatbot.Platform.Versioning.Publish.{
  add_chunk_sets, index_writes, registry_writes, publish_writes,
}
use ai_chatbot.Platform.Versioning.Publish.Reads.{Plan, System, on_index, on_registry, new_ids}
use ai_chatbot.Platform.Versioning.Publish.Steps.{write_index}
use ai_chatbot.Platform.Versioning.Publish.Writes.{closed, opened, write_index_lem}
use ai_chatbot.Platform.Versioning.Publish.Served.{all_added_of_wrote}
use ai_chatbot.Platform.Versioning.Publish.Stops.{Stopped, adding, closing, opening, aliasing}

take-nil : {A : Type 0} (k : ℕ) → take {A = A} k [] ≡ []
take-nil zero = refl
take-nil (suc k) = refl

module _ {F : Type 0} (I : ServingIndex F) (n : ℕ) (plan : Plan) (i : I.State) where
  abbrev closing_of : I.State
  closing_of = (I.close_intervals (minus plan.active plan.target) n i).1

  abbrev opening_of : I.State
  opening_of = (I.open_intervals (minus plan.target plan.active) n closing_of).1

module _ {F : Type 0} (I : ServingIndex F) where
  -- The system when the process dies after `k` writes of the publication, or when one of them raises.
  abbrev pub stopped_after : ℕ → ℕ → List (ChunkSet F) → Plan → ℕ → System I → System I
  stopped_after k n sets plan now s = (run_writes (take k (publish_writes I n sets plan now)) s).1

  -- Some of the writes are on the index, and the others follow when those have returned.
  take_split :
      (k : ℕ) (ws : List (M I.State (Unit {0}))) (rs : List (M (System I) (Unit {0})))
      (s : System I)
      → ((run_writes (take k (map (on_index I) ws ++ rs)) s).1
          ≡ record s { index = (run_writes (take k ws) s.index).1 })
        ⊎ (((run_writes ws s.index).0 ≡ ok tt)
            × ((j : ℕ) × ((run_writes (take k (map (on_index I) ws ++ rs)) s).1
                  ≡ (run_writes (take j rs) (record s { index = (run_writes ws s.index).1 })).1)))
  take_split k [] rs s = inr (refl, (k, refl))
  take_split zero (w ∷ ws) rs s = inl refl
  take_split (suc k) (w ∷ ws) rs s = elim (Result-cases (w s.index).0) [
    | inr (x, e) ↦ inl (rw e refl)
    | inl (a, e) ↦ elim (take_split k ws rs (record s { index = (w s.index).1 })) [
      | inl q ↦ inl (rw e q)
      | inr (done, (j, q)) ↦ inr (rw e done, (j, rw e q))
    ]
  ]

  module _ (L : IsLawful I) (n : ℕ) (plan : Plan) where
    index_take :
        (k : ℕ) (sets : List (ChunkSet F)) (i : I.State)
        → ((done : List (ChunkSet F)) × ((run_writes (take k (index_writes I n sets plan)) i).1
              ≡ (add_chunk_sets I done i).1))
          ⊎ (((add_chunk_sets I sets i).0 ≡ ok tt)
              × (((run_writes (take k (index_writes I n sets plan)) i).1 ≡ closed I L n sets plan i)
                  ⊎ ((run_writes (take k (index_writes I n sets plan)) i).1
                      ≡ opened I L n sets plan i)))
    unfolding index_writes add_chunk_sets
    index_take zero [] i = inl ([], refl)
    index_take (suc zero) [] i = inr (
      refl,
      inl (ap (λ p. p.1) (run_writes-last (I.close_intervals (minus plan.active plan.target) n) i)),
    )
    index_take (suc (suc k)) [] i =
        let close = I.close_intervals (minus plan.active plan.target) n in
        let open_ = I.open_intervals (minus plan.target plan.active) n in
        inr (
          refl,
          inr (
              ap (λ ws. (run_writes (close ∷ open_ ∷ ws) i).1) (take-nil k)
              ∙ ap (λ p. p.1)
                  (run_writes-two close open_ i
                    ∙ >>-ok close open_ i (L.close_ok i (minus plan.active plan.target) n))),
        )
    index_take zero (set ∷ sets) i = inl ([], refl)
    index_take (suc k) (set ∷ sets) i = elim (Result-cases (I.add_chunk_set set i).0) [
      | inr (x, e) ↦ inl (set ∷ [], rw e refl)
      | inl (a, e) ↦
          let later = (I.add_chunk_set set i).1 in
          let step : (run_writes (take (suc k) (index_writes I n (set ∷ sets) plan)) i).1
              ≡ (run_writes (take k (index_writes I n sets plan)) later).1 =
            rw e refl in
          let grown : (add_chunk_sets I sets later).1 ≡ (add_chunk_sets I (set ∷ sets) i).1 =
            rw e refl in
          elim (index_take k sets later) [
            | inl (done, q) ↦ inl (set ∷ done, rw e q)
            | inr (all_added, inl q) ↦
                inr (rw e all_added, inl (step ∙ q ∙ ap (closing_of I n plan) grown))
            | inr (all_added, inr q) ↦
                inr (rw e all_added, inr (step ∙ q ∙ ap (opening_of I n plan) grown))
          ]
    ]

    module _ (sets : List (ChunkSet F)) (now : ℕ) (s : System I) where
      -- The system after all writes.
      abbrev pub finished : System I
      finished = record {
        registry =
            (set_kb_status n published none now (set_alias serving_alias n now s.registry).1).1;
        index = opened I L n sets plan s.index;
      }

      -- The writes on the registry, after those on the index.
      registry_cases :
          (j : ℕ)
          → (add_chunk_sets I sets s.index).0 ≡ ok tt
          → Stopped I L n sets plan now s
              (run_writes
                (take j (registry_writes I n now))
                (record s { index = opened I L n sets plan s.index })).1
            ⊎ (((add_chunk_sets I sets s.index).0 ≡ ok tt)
                × ((run_writes
                      (take j (registry_writes I n now))
                      (record s { index = opened I L n sets plan s.index })).1
                    ≡ finished))
      unfolding registry_writes
      registry_cases zero a = inl (opening a)
      registry_cases (suc zero) a = inl (
          rw
            (ap (λ p. p.1)
              (run_writes-last (on_registry I (set_alias serving_alias n now))
                (record s { index = opened I L n sets plan s.index })))
            (aliasing a))
      registry_cases (suc (suc j)) a =
          let alias = on_registry I (set_alias serving_alias n now) in
          let status = on_registry I (set_kb_status n published none now) in
          let t = record s { index = opened I L n sets plan s.index } in
          inr (
            a,
            ap (λ ws. (run_writes (alias ∷ status ∷ ws) t).1) (take-nil j)
                ∙ ap (λ p. p.1)
                    (run_writes-two alias status t
                      ∙ >>-ok alias status t (set_alias-versions serving_alias n now s.registry).0),
          )

      -- Every such state is one of the stops, or that after all writes.
      pub stopped_after-Stopped :
          (k : ℕ)
          → L.IsValid s.index
          → ((c : String)
              → contains plan.target c ≡ true
              → (is_some (L.stored s.index c) || contains (new_ids sets) c) ≡ true)
          → Stopped I L n sets plan now s (stopped_after k n sets plan now s)
            ⊎ (((add_chunk_sets I sets s.index).0 ≡ ok tt)
                × (stopped_after k n sets plan now s ≡ finished))
      unfolding publish_writes registry_writes write_index
      stopped_after-Stopped k v backed =
          elim (take_split k (index_writes I n sets plan) (registry_writes I n now) s) [
            | inl q ↦ elim (index_take k sets s.index) [
              | inl (done, q') ↦ inl (rw (q, q') (adding done))
              | inr (a, inl q') ↦ inl (rw (q, q') (closing a))
              | inr (a, inr q') ↦ inl (rw (q, q') (opening a))
            ]
            | inr (wrote, (j, q)) ↦
                let a = all_added_of_wrote I L n sets plan s.index tt wrote in
                let there : (run_writes (index_writes I n sets plan) s.index).1
                    ≡ opened I L n sets plan s.index =
                  ap (λ p. p.1) (write_index_lem I L n sets plan s.index v backed a) in
                rw (q, there) (registry_cases j a)
          ]
