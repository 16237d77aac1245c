-- ===== src/Platform/Versioning/Publish/Writes.antt =====
-- The writes of a publication on an index that keeps the contract of the port: chunk by chunk they
-- do what `publish_at` says.
use ai_chatbot.Base.{
  ℕ, String, Bool, true, ◌||◌, some, List, [], ◌∷◌, ◌≡◌, refl, ap, ◌∙◌, arith, Error, ok, raise,
  contains, contains-append, contains-minus, minus, is_some, all, string_eq, Result-cases, inl, inr,
  from_some,
}
use ai_chatbot.Base.State.{>>-keeps, >>-ok, >>-raise}
use ai_chatbot.Contracts.KnowledgeBase.{ChunkSet}
use ai_chatbot.Platform.Models.{StoredChunk}
use ai_chatbot.Platform.Index.{ServingIndex, IsLawful, chunk_ids}
use ai_chatbot.Platform.Versioning.Publish.Reads.{Plan, new_ids}
use ai_chatbot.Platform.Versioning.Publish.Timeline.{publish_at}
use ai_chatbot.Platform.Versioning.Publish.{add_chunk_sets}
use ai_chatbot.Platform.Versioning.Publish.Steps.{write_index, write_index-parts}

all_of_contains :
    (p : String → Bool) (cs : List String)
    → ((c : String) → contains cs c ≡ true → p c ≡ true)
    → all p cs ≡ true
all_of_contains p [] h = refl
all_of_contains p (c ∷ cs) h = ground (arith, h c, all_of_contains p cs (λ k m. h k (ground arith)))

module _ {F : Type 0} (I : ServingIndex F) (L : IsLawful I) where
  open L use {IsValid, intervals, stored}

  pub add_chunk_sets-IsValid :
      (sets : List (ChunkSet F)) (i : I.State) → IsValid i → IsValid (add_chunk_sets I sets i).1
  unfolding add_chunk_sets
  add_chunk_sets-IsValid [] i v = v
  add_chunk_sets-IsValid (set ∷ sets) i v =
      >>-keeps IsValid (I.add_chunk_set set) (add_chunk_sets I sets) i (L.add_valid i set v)
        (add_chunk_sets-IsValid sets)

  pub add_chunk_sets-intervals :
      (sets : List (ChunkSet F)) (i : I.State) (c : String)
      → intervals (add_chunk_sets I sets i).1 c ≡ intervals i c
  unfolding add_chunk_sets
  add_chunk_sets-intervals [] i c = refl
  add_chunk_sets-intervals (set ∷ sets) i c =
      >>-keeps (λ t. intervals t c ≡ intervals i c) (I.add_chunk_set set) (add_chunk_sets I sets) i
        (L.add_intervals i set c) (λ t e. add_chunk_sets-intervals sets t c ∙ e)

  pub add_chunk_sets-keeps :
      (sets : List (ChunkSet F)) (i : I.State) (c : String) (x : StoredChunk F)
      → stored i c ≡ some x
      → stored (add_chunk_sets I sets i).1 c ≡ some x
  unfolding add_chunk_sets
  add_chunk_sets-keeps [] i c x e = e
  add_chunk_sets-keeps (set ∷ sets) i c x e =
      >>-keeps (λ t. stored t c ≡ some x) (I.add_chunk_set set) (add_chunk_sets I sets) i
        (L.add_keeps i set c x e) (λ t f. add_chunk_sets-keeps sets t c x f)

  add_chunk_sets-keeps_some :
      (sets : List (ChunkSet F)) (i : I.State) (c : String)
      → is_some (stored i c) ≡ true
      → is_some (stored (add_chunk_sets I sets i).1 c) ≡ true
  add_chunk_sets-keeps_some sets i c h =
      from_some (stored i c) h (λ x e. ap is_some (add_chunk_sets-keeps sets i c x e))

  add_chunk_sets-stores :
      (sets : List (ChunkSet F)) (i : I.State) (c : String)
      → (add_chunk_sets I sets i).0 ≡ ok tt
      → contains (new_ids sets) c ≡ true
      → is_some (stored (add_chunk_sets I sets i).1 c) ≡ true
  unfolding add_chunk_sets
  add_chunk_sets-stores [] i c e m = cc
  add_chunk_sets-stores (set ∷ sets) i c e m = elim (Result-cases (I.add_chunk_set set i).0) [
    | inl (a, f) ↦ rw f (
        ground (
          arith,
          contains-append c (chunk_ids set) (new_ids sets),
          L.add_stores i set f c,
          add_chunk_sets-keeps_some sets (I.add_chunk_set set i).1 c,
          add_chunk_sets-stores sets (I.add_chunk_set set i).1 c,
        ))
    | inr (x, f) ↦ absurd (ground arith)
  ]

  -- Every set has embeddings that the index takes.
  abbrev pub accepts_all : List (ChunkSet F) → Bool
  accepts_all = all L.accepts

  pub add_chunk_sets-ok :
      (sets : List (ChunkSet F)) (i : I.State)
      → accepts_all sets ≡ true
      → (add_chunk_sets I sets i).0 ≡ ok tt
  unfolding add_chunk_sets
  add_chunk_sets-ok [] i h = refl
  add_chunk_sets-ok (set ∷ sets) i h =
      ground (arith, L.add_ok i set, add_chunk_sets-ok sets (I.add_chunk_set set i).1)

  -- What the writes leave, once the chunks are stored.
  pub record Written (n : ℕ) (sets : List (ChunkSet F)) (plan : Plan) (i : I.State) (j : I.State)
      : Type 0 where
    pub valid : IsValid j
    pub shape :
        (c : String)
        → intervals j c
          ≡ publish_at n (contains plan.active c) (contains plan.target c) (intervals i c)
    pub keeps : (c : String) (x : StoredChunk F) → stored i c ≡ some x → stored j c ≡ some x

  module _ (n : ℕ) (sets : List (ChunkSet F)) (plan : Plan) (i : I.State) where
    abbrev pub added : I.State
    added = (add_chunk_sets I sets i).1

    pub write_index_raise :
        {e : Error}
        → (add_chunk_sets I sets i).0 ≡ raise e
        → write_index I n sets plan i ≡ (raise e, added)
    write_index_raise h = write_index-parts I n sets plan i ∙ >>-raise (add_chunk_sets I sets) _ i h

    abbrev pub closed : I.State
    closed = (I.close_intervals (minus plan.active plan.target) n added).1

    abbrev pub opened : I.State
    opened = (I.open_intervals (minus plan.target plan.active) n closed).1

    module _ (v : IsValid i)
        (backed : (c : String)
          → contains plan.target c ≡ true
          → (is_some (stored i c) || contains (new_ids sets) c) ≡ true)
        (all_added : (add_chunk_sets I sets i).0 ≡ ok tt) where
      openable : all (λ c. is_some (stored closed c)) (minus plan.target plan.active) ≡ true
      openable =
          all_of_contains (λ c. is_some (stored closed c)) (minus plan.target plan.active)
            (λ c m. ground (
              arith,
              contains-minus c plan.target plan.active,
              backed c,
              L.close_stored added (minus plan.active plan.target) n c,
              add_chunk_sets-keeps_some sets i c,
              add_chunk_sets-stores sets i c all_added,
            ))

      pub write_index_lem : write_index I n sets plan i ≡ (ok tt, opened)
      write_index_lem =
          write_index-parts I n sets plan i
          ∙ >>-ok (add_chunk_sets I sets) _ i all_added
          ∙ >>-ok (I.close_intervals (minus plan.active plan.target) n) _ added
              (L.close_ok added (minus plan.active plan.target) n)
          ∙ (λ k. (L.open_ok closed (minus plan.target plan.active) n openable k, opened))

      pub opened-Written : Written n sets plan i opened
      opened-Written = record {
        valid = L.open_valid closed _ n (L.close_valid added _ n (add_chunk_sets-IsValid sets i v));
        shape = λ c. ground (
          arith,
          L.open_intervals_lem closed (minus plan.target plan.active) n openable c,
          L.close_intervals_lem added (minus plan.active plan.target) n c,
          add_chunk_sets-intervals sets i c,
          contains-minus c plan.target plan.active,
          contains-minus c plan.active plan.target,
        );
        keeps = λ c x e.
            L.open_stored closed _ n c
            ∙ L.close_stored added _ n c
            ∙ add_chunk_sets-keeps sets i c x e;
      }
