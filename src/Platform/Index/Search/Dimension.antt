-- ===== src/Platform/Index/Search/Dimension.antt =====
-- The embeddings that `InMemoryServingIndex` keeps beside the chunks have one dimension.
use ai_chatbot.Base.{
  ℕ, String, Bool, true, Option, none, some, List, [], ◌∷◌, ◌≡◌, arith, ◌==◌, nat_eq, string_eq,
  length, all, Option-cases, inl, inr,
}
use ai_chatbot.Base.Dict.{lookup-insert}
use ai_chatbot.Base.State.{>>-keeps}
use ai_chatbot.Contracts.KnowledgeBase.{Chunk, ChunkSet}
use ai_chatbot.Platform.Index.Memory.{
  Memory, store_chunk, store_chunks, add_chunk_set, open_one, open_intervals, close_one, close_all,
  close_intervals, to_stored,
}
use ai_chatbot.Platform.Index.Search.Laws.{HasEmbeddings}

abbrev pub fits : {F : Type 0} → ℕ → Option (List F) → Bool
fits n none = true
fits n (some embedding) = length embedding == n

module _ {F : Type 0} where
  store_chunk-HasEmbeddings :
      (n : ℕ) (set : ChunkSet F) (chunk : Chunk F) (s : Memory F)
      → fits n chunk.embedding ≡ true
      → HasEmbeddings n s
      → HasEmbeddings n (store_chunk set chunk s).1
  unfolding store_chunk
  store_chunk-HasEmbeddings n set chunk s fit h c = elim (Option-cases chunk.embedding) [
    | inl none_ ↦ ground (arith, h c, none_)
    | inr (vector, some_) ↦ ground (
      arith,
      h c,
      some_,
      lookup-insert c chunk.chunk_id vector s.embeddings,
      lookup-insert c chunk.chunk_id (to_stored set chunk) s.chunks,
    )
  ]

  store_chunks-HasEmbeddings :
      (n : ℕ) (set : ChunkSet F) (chunks : List (Chunk F)) (s : Memory F)
      → all (λ chunk. fits n chunk.embedding) chunks ≡ true
      → HasEmbeddings n s
      → HasEmbeddings n (store_chunks set chunks s).1
  unfolding store_chunks
  store_chunks-HasEmbeddings n set [] s fit h = h
  store_chunks-HasEmbeddings n set (chunk ∷ chunks) s fit h =
      >>-keeps (HasEmbeddings n) (store_chunk set chunk) (store_chunks set chunks) s
        (store_chunk-HasEmbeddings n set chunk s (ground arith) h)
        (λ t. store_chunks-HasEmbeddings n set chunks t (ground arith))

  open_intervals-HasEmbeddings :
      (n : ℕ) (cs : List String) (v : ℕ) (s : Memory F)
      → HasEmbeddings n s
      → HasEmbeddings n (open_intervals cs v s).1
  unfolding open_intervals open_one
  open_intervals-HasEmbeddings n [] v s h = h
  open_intervals-HasEmbeddings n (c ∷ cs) v s h =
      >>-keeps (HasEmbeddings n) (open_one v c) (open_intervals cs v) s (λ k. ground (arith, h k))
        (λ t. open_intervals-HasEmbeddings n cs v t)

  close_all-HasEmbeddings :
      (n : ℕ) (cs : List String) (v : ℕ) (s : Memory F)
      → HasEmbeddings n s
      → HasEmbeddings n (close_all cs v s)
  unfolding close_all close_one
  close_all-HasEmbeddings n [] v s h = h
  close_all-HasEmbeddings n (c ∷ cs) v s h = close_all-HasEmbeddings n cs v (close_one v c s) h

  -- When every stored chunk has an embedding with n numbers, this stays so after a chunk set whose
  -- embeddings have n numbers is added, whether that returns or raises, and after intervals are
  -- opened or closed.
  pub index-HasEmbeddings :
      (n : ℕ) (s : Memory F) (set : ChunkSet F) (cs : List String) (v : ℕ)
      → all (λ chunk. fits n chunk.embedding) set.chunks ≡ true
      → HasEmbeddings n s
      → HasEmbeddings n (add_chunk_set set s).1
        × HasEmbeddings n (open_intervals cs v s).1
        × HasEmbeddings n (close_intervals cs v s).1
  unfolding add_chunk_set close_intervals
  index-HasEmbeddings n s set cs v fit h = (
    store_chunks-HasEmbeddings n set set.chunks s fit h,
    open_intervals-HasEmbeddings n cs v s h,
    close_all-HasEmbeddings n cs v s h,
  )
