-- ===== src/Platform/Index/Port.antt =====
-- The protocol `ServingIndex`, over the type `F` of floats, and the contract that a client may rely
-- on: every operation is described by the intervals and the stored chunks that it leaves.
use ai_chatbot.Base.{
  ℕ, String, Bool, true, Option, none, some, List, map, ◌≡◌, Result, ok, if◌then◌else◌, contains,
  string_eq, is_some, all,
}
use ai_chatbot.Base.Dict.{Dict, lookup, NodupKeys}
use ai_chatbot.Base.State.{M}
use ai_chatbot.Contracts.KnowledgeBase.{ChunkSet}
use ai_chatbot.Platform.Models.{StoredChunk}
use ai_chatbot.Platform.Index.Intervals.{Interval, is_visible, close_at, open_at}

pub record ServingIndex (F : Type 0) : Type 1 where
  pub State : Type 0
  pub add_chunk_set : ChunkSet F → M State (Unit {0})
  pub open_intervals : List String → ℕ → M State (Unit {0})
  pub close_intervals : List String → ℕ → M State (Unit {0})
  pub active_chunks : ℕ → State → Result (Dict String)
  pub get_chunks : List String → State → List (StoredChunk F)

abbrev pub chunk_ids : {F : Type 0} → ChunkSet F → List String
chunk_ids set = map (λ chunk. chunk.chunk_id) set.chunks

abbrev pub doc_of : {F : Type 0} → Option (StoredChunk F) → Option String
doc_of none = none
doc_of (some stored) = some stored.chunk.doc_version

pub record IsLawful {F : Type 0} (I : ServingIndex F) : Type 1 where
  pub IsValid : I.State → Type 0
  pub intervals : I.State → String → List Interval
  pub stored : I.State → String → Option (StoredChunk F)
  -- The embeddings of the chunks are such that the adapter takes them.
  pub accepts : ChunkSet F → Bool
  pub stored_of_visible :
      (s : I.State)
      → IsValid s
      → (c : String) (v : ℕ) → is_visible (intervals s c) v ≡ true
      → is_some (stored s c) ≡ true
  pub active :
      (s : I.State)
      → IsValid s
      → (v : ℕ)
      → (d : Dict String) × (I.active_chunks v s ≡ ok d)
        × NodupKeys d
        × ((c : String)
            → lookup c d ≡ (if is_visible (intervals s c) v then doc_of (stored s c) else none))
  pub add_ok :
      (s : I.State) (set : ChunkSet F) → accepts set ≡ true → (I.add_chunk_set set s).0 ≡ ok tt
  pub add_valid : (s : I.State) (set : ChunkSet F) → IsValid s → IsValid (I.add_chunk_set set s).1
  pub add_intervals :
      (s : I.State) (set : ChunkSet F) (c : String)
      → intervals (I.add_chunk_set set s).1 c ≡ intervals s c
  pub add_keeps :
      (s : I.State) (set : ChunkSet F) (c : String) (chunk : StoredChunk F)
      → stored s c ≡ some chunk
      → stored (I.add_chunk_set set s).1 c ≡ some chunk
  pub add_stores :
      (s : I.State) (set : ChunkSet F)
      → (I.add_chunk_set set s).0 ≡ ok tt
      → (c : String) → contains (chunk_ids set) c ≡ true
      → is_some (stored (I.add_chunk_set set s).1 c) ≡ true
  pub open_ok :
      (s : I.State) (cs : List String) (v : ℕ)
      → all (λ c. is_some (stored s c)) cs ≡ true
      → (I.open_intervals cs v s).0 ≡ ok tt
  pub open_valid :
      (s : I.State) (cs : List String) (v : ℕ) → IsValid s → IsValid (I.open_intervals cs v s).1
  pub open_stored :
      (s : I.State) (cs : List String) (v : ℕ) (c : String)
      → stored (I.open_intervals cs v s).1 c ≡ stored s c
  pub open_intervals_lem :
      (s : I.State) (cs : List String) (v : ℕ)
      → all (λ c. is_some (stored s c)) cs ≡ true
      → (c : String)
      → intervals (I.open_intervals cs v s).1 c
        ≡ (if contains cs c then open_at v (intervals s c) else intervals s c)
  pub close_ok : (s : I.State) (cs : List String) (v : ℕ) → (I.close_intervals cs v s).0 ≡ ok tt
  pub close_valid :
      (s : I.State) (cs : List String) (v : ℕ) → IsValid s → IsValid (I.close_intervals cs v s).1
  pub close_stored :
      (s : I.State) (cs : List String) (v : ℕ) (c : String)
      → stored (I.close_intervals cs v s).1 c ≡ stored s c
  pub close_intervals_lem :
      (s : I.State) (cs : List String) (v : ℕ) (c : String)
      → intervals (I.close_intervals cs v s).1 c
        ≡ (if contains cs c then map (close_at v) (intervals s c) else intervals s c)
