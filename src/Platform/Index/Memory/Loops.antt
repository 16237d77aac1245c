-- ===== src/Platform/Index/Memory/Loops.antt =====
-- The loops over chunks in memory, by their rounds.
use ai_chatbot.Base.{
  ℕ, String, Bool, true, some, List, [], ◌∷◌, map, ◌≡◌, refl, ok, if◌then◌else◌, arith, contains,
  string_eq, is_some, all, from_some,
}
use ai_chatbot.Base.Dict.{lookup, has, lookup-insert}
use ai_chatbot.Contracts.KnowledgeBase.{Chunk, ChunkSet}
use ai_chatbot.Platform.Models.{StoredChunk}
use ai_chatbot.Platform.Index.Intervals.{close_at, open_at, close_at_twice, open_at_twice}
use ai_chatbot.Platform.Index.Memory.{
  Memory, intervals_of, to_stored, store_chunk, store_chunks, open_one, open_intervals, close_one,
  close_all,
}

module _ {F : Type 0} where
  abbrev pub accepts : List (Chunk F) → Bool
  accepts = all (λ chunk. is_some chunk.embedding)

  -- Storing a chunk leaves the intervals, and every chunk that is there.
  store_chunk-intervals :
      (set : ChunkSet F) (chunk : Chunk F) (s : Memory F)
      → (store_chunk set chunk s).1.intervals ≡ s.intervals
  unfolding store_chunk
  store_chunk-intervals set chunk s = ground arith

  store_chunk-keeps :
      (set : ChunkSet F) (chunk : Chunk F) (s : Memory F) (c : String) (x : StoredChunk F)
      → lookup c s.chunks ≡ some x
      → lookup c (store_chunk set chunk s).1.chunks ≡ some x
  unfolding store_chunk
  store_chunk-keeps set chunk s c x h =
      ground (arith, lookup-insert c chunk.chunk_id (to_stored set chunk) s.chunks)

  store_chunk-stores :
      (set : ChunkSet F) (chunk : Chunk F) (s : Memory F)
      → (store_chunk set chunk s).0 ≡ ok tt
      → is_some (lookup chunk.chunk_id (store_chunk set chunk s).1.chunks) ≡ true
  unfolding store_chunk
  store_chunk-stores set chunk s h =
      ground (arith, lookup-insert chunk.chunk_id chunk.chunk_id (to_stored set chunk) s.chunks)

  store_chunk-ok :
      (set : ChunkSet F) (chunk : Chunk F) (s : Memory F)
      → is_some chunk.embedding ≡ true
      → (store_chunk set chunk s).0 ≡ ok tt
  unfolding store_chunk
  store_chunk-ok set chunk s h = ground arith

  -- The loop of `add_chunk_set`, by its rounds.
  pub store_chunks-intervals :
      (set : ChunkSet F) (chunks : List (Chunk F)) (s : Memory F)
      → (store_chunks set chunks s).1.intervals ≡ s.intervals
  unfolding store_chunks
  store_chunks-intervals set [] s = refl
  store_chunks-intervals set (chunk ∷ chunks) s = ground (
    arith,
    store_chunk-intervals set chunk s,
    store_chunks-intervals set chunks (store_chunk set chunk s).1,
  )

  pub store_chunks-keeps :
      (set : ChunkSet F) (chunks : List (Chunk F)) (s : Memory F) (c : String) (x : StoredChunk F)
      → lookup c s.chunks ≡ some x
      → lookup c (store_chunks set chunks s).1.chunks ≡ some x
  unfolding store_chunks
  store_chunks-keeps set [] s c x h = h
  store_chunks-keeps set (chunk ∷ chunks) s c x h = ground (
    arith,
    store_chunk-keeps set chunk s c x,
    store_chunks-keeps set chunks (store_chunk set chunk s).1 c x,
  )

  pub store_chunks-keeps_some :
      (set : ChunkSet F) (chunks : List (Chunk F)) (s : Memory F) (c : String)
      → has c s.chunks ≡ true
      → has c (store_chunks set chunks s).1.chunks ≡ true
  store_chunks-keeps_some set chunks s c h =
      from_some (lookup c s.chunks) h (λ x e. rw (store_chunks-keeps set chunks s c x e))

  pub store_chunks-stores :
      (set : ChunkSet F) (chunks : List (Chunk F)) (s : Memory F) (c : String)
      → (store_chunks set chunks s).0 ≡ ok tt
      → contains (map (λ chunk. chunk.chunk_id) chunks) c ≡ true
      → is_some (lookup c (store_chunks set chunks s).1.chunks) ≡ true
  unfolding store_chunks
  store_chunks-stores set [] s c h m = cc
  store_chunks-stores set (chunk ∷ chunks) s c h m = ground (
    arith,
    store_chunk-stores set chunk s,
    store_chunks-keeps_some set chunks (store_chunk set chunk s).1 c,
    store_chunks-stores set chunks (store_chunk set chunk s).1 c,
  )

  pub store_chunks-ok :
      (set : ChunkSet F) (chunks : List (Chunk F)) (s : Memory F)
      → accepts chunks ≡ true
      → (store_chunks set chunks s).0 ≡ ok tt
  unfolding store_chunks
  store_chunks-ok set [] s h = refl
  store_chunks-ok set (chunk ∷ chunks) s h =
      ground
        (arith, store_chunk-ok set chunk s, store_chunks-ok set chunks (store_chunk set chunk s).1)

  -- Opening and closing, one chunk at a time.
  pub open_intervals-stored :
      (cs : List String) (v : ℕ) (s : Memory F) → (open_intervals cs v s).1.chunks ≡ s.chunks
  unfolding open_intervals
  open_intervals-stored [] v s = refl
  open_intervals-stored (c ∷ cs) v s = ground (arith, open_intervals-stored cs v (open_one v c s).1)

  pub open_intervals-ok :
      (cs : List String) (v : ℕ) (s : Memory F)
      → all (λ c. has c s.chunks) cs ≡ true
      → (open_intervals cs v s).0 ≡ ok tt
  unfolding open_intervals
  open_intervals-ok [] v s h = refl
  open_intervals-ok (c ∷ cs) v s h = ground (arith, open_intervals-ok cs v (open_one v c s).1)

  pub open_intervals_lem :
      (cs : List String) (v : ℕ) (s : Memory F) (c : String)
      → all (λ c. has c s.chunks) cs ≡ true
      → intervals_of (open_intervals cs v s).1 c
        ≡ (if contains cs c then open_at v (intervals_of s c) else intervals_of s c)
  unfolding open_intervals
  open_intervals_lem [] v s c h = refl
  open_intervals_lem (k ∷ cs) v s c h = ground (
    arith,
    open_intervals_lem cs v (open_one v k s).1 c,
    lookup-insert c k (open_at v (intervals_of s k)) s.intervals,
    open_at_twice v (intervals_of s c),
  )

  pub close_all-stored :
      (cs : List String) (v : ℕ) (s : Memory F) → (close_all cs v s).chunks ≡ s.chunks
  unfolding close_all
  close_all-stored [] v s = refl
  close_all-stored (c ∷ cs) v s = close_all-stored cs v (close_one v c s)

  pub close_all_lem :
      (cs : List String) (v : ℕ) (s : Memory F) (c : String)
      → intervals_of (close_all cs v s) c
        ≡ (if contains cs c then map (close_at v) (intervals_of s c) else intervals_of s c)
  unfolding close_all
  close_all_lem [] v s c = refl
  close_all_lem (k ∷ cs) v s c = ground (
    arith,
    close_all_lem cs v (close_one v k s) c,
    lookup-insert c k (map (close_at v) (intervals_of s k)) s.intervals,
    close_at_twice v (intervals_of s c),
  )
