-- ===== src/Platform/Index/Memory.antt =====
-- `InMemoryServingIndex`: three dictionaries keyed by chunk id. A loop over chunks is a recursion,
-- and a raise leaves what the rounds before it wrote.
pub mod Active
pub mod Loops
pub mod Lawful
use ai_chatbot.Base.{
  ℕ, String, Bool, true, false, Option, none, some, List, [], ◌∷◌, map, Result, ok, raise,
  value_error, key_error, if◌then◌else◌,
}
use ai_chatbot.Base.Dict.{Dict, lookup, insert, has}
use ai_chatbot.Base.State.{M, ◌>>◌}
use ai_chatbot.Contracts.KnowledgeBase.{Chunk, ChunkSet}
use ai_chatbot.Platform.Models.{StoredChunk}
use ai_chatbot.Platform.Index.Intervals.{Interval, is_visible, close_at, open_at}
use ai_chatbot.Platform.Index.Port.{ServingIndex}

pub record Memory (F : Type 0) : Type 0 where
  pub chunks : Dict (StoredChunk F)
  pub embeddings : Dict (List F)
  pub intervals : Dict (List Interval)

abbrev pub empty_memory : {F : Type 0} → Memory F
empty_memory = record { chunks = []; embeddings = []; intervals = [] }

-- `self._intervals.get(chunk_id, [])`
abbrev pub or_empty : Option (List Interval) → List Interval
or_empty none = []
or_empty (some xs) = xs

-- The entry of one chunk in front of the others; the first raise wins.
abbrev pub entry : String → Result String → Result (Dict String) → Result (Dict String)
entry c (ok doc) (ok d) = ok ((c, doc) ∷ d)
entry c (ok doc) (raise e) = raise e
entry c (raise e) rest = raise e

module _ {F : Type 0} where
  abbrev pub intervals_of : Memory F → String → List Interval
  intervals_of s c = or_empty (lookup c s.intervals)

  -- `chunk.model_copy(update={"embedding": None})` with the lineage columns.
  abbrev pub to_stored : ChunkSet F → Chunk F → StoredChunk F
  to_stored set chunk = record {
    chunk = record chunk { embedding = none };
    ingestion_run_id = set.ingestion_run_id;
    embedding_model = set.embedding_model;
    chunker_version = set.chunker_version;
  }

  -- One round of `add_chunk_set`.
  unfoldable pub store_chunk : ChunkSet F → Chunk F → M (Memory F) (Unit {0})
  unfolding insert lookup
  store_chunk set chunk s =
      if has chunk.chunk_id s.chunks then (ok tt, s) else elim chunk.embedding [
        | none ↦ (raise value_error, s)
        | some vector ↦ (
          ok tt,
          record s {
            embeddings = insert chunk.chunk_id vector s.embeddings;
            chunks = insert chunk.chunk_id (to_stored set chunk) s.chunks;
          },
        )
      ]

  unfoldable pub store_chunks : ChunkSet F → List (Chunk F) → M (Memory F) (Unit {0})
  unfolding store_chunk
  store_chunks set [] s = (ok tt, s)
  store_chunks set (chunk ∷ chunks) s = (store_chunk set chunk >> store_chunks set chunks) s

  unfoldable pub add_chunk_set : ChunkSet F → M (Memory F) (Unit {0})
  unfolding store_chunks
  add_chunk_set set = store_chunks set set.chunks

  unfoldable pub open_one : ℕ → String → M (Memory F) (Unit {0})
  unfolding insert lookup
  open_one v c s =
      if has c s.chunks
      then (ok tt, record s { intervals = insert c (open_at v (intervals_of s c)) s.intervals })
      else (raise key_error, s)

  unfoldable pub open_intervals : List String → ℕ → M (Memory F) (Unit {0})
  unfolding open_one
  open_intervals [] v s = (ok tt, s)
  open_intervals (c ∷ cs) v s = (open_one v c >> open_intervals cs v) s

  unfoldable pub close_one : ℕ → String → Memory F → Memory F
  unfolding insert lookup
  close_one v c s = record s {
    intervals = insert c (map (close_at v) (intervals_of s c)) s.intervals;
  }

  unfoldable pub close_all : List String → ℕ → Memory F → Memory F
  unfolding close_one
  close_all [] v s = s
  close_all (c ∷ cs) v s = close_all cs v (close_one v c s)

  unfoldable pub close_intervals : List String → ℕ → M (Memory F) (Unit {0})
  unfolding close_all
  close_intervals cs v s = (ok tt, close_all cs v s)

  -- `self._chunks[chunk_id].chunk.doc_version`
  abbrev pub doc_version_of : Dict (StoredChunk F) → String → Result String
  doc_version_of chunks c = elim (lookup c chunks) [
    | none ↦ raise key_error
    | some stored ↦ ok stored.chunk.doc_version
  ]

  unfoldable pub active_from :
      Dict (StoredChunk F) → ℕ → List (String × List Interval) → Result (Dict String)
  unfolding lookup
  active_from chunks v [] = ok []
  active_from chunks v ((c, intervals) ∷ items) =
      let rest = active_from chunks v items in
      if is_visible intervals v then entry c (doc_version_of chunks c) rest else rest

  unfoldable pub active_chunks : ℕ → Memory F → Result (Dict String)
  unfolding active_from
  active_chunks v s = active_from s.chunks v s.intervals

  unfoldable pub get_chunks : List String → Memory F → List (StoredChunk F)
  unfolding lookup
  get_chunks [] s = []
  get_chunks (c ∷ cs) s =
      let rest = get_chunks cs s in
      elim (lookup c s.chunks) [ none ↦ rest | some stored ↦ stored ∷ rest ]

  abbrev pub memory_index : ServingIndex F
  memory_index = record {
    State = Memory F;
    add_chunk_set = add_chunk_set;
    open_intervals = open_intervals;
    close_intervals = close_intervals;
    active_chunks = active_chunks;
    get_chunks = get_chunks;
  }
