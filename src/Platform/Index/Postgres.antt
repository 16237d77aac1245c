-- ===== src/Platform/Index/Postgres.antt =====
-- libs/platform/src/chatbot_platform/pg_index.py: `PgServingIndex` over the tables
-- `serving.chunks` and `serving.chunk_validity` of sql.py. The parameter `dim` is the number of
-- dimensions that the index was made with. A method is one transaction: a raise rolls it back.
pub mod Validity
pub mod Active
pub mod Lawful
use ai_chatbot.Base.{
  ℕ, String, Bool, true, false, ◌&&◌, ◌||◌, Option, none, some, List, [], ◌∷◌, ◌++◌, map, Result,
  ok, raise, value_error, integrity, if◌then◌else◌, ◌==◌, string_eq, nat_eq, contains, keep, any,
  all, length, ltb,
}
use mathlib.Core.Option
use ai_chatbot.Base.Dict.{Dict, of_pairs}
use ai_chatbot.Base.State.{M}
use ai_chatbot.Base.Table.{find?, update_where}
use ai_chatbot.Contracts.KnowledgeBase.{Chunk, ChunkSet}
use ai_chatbot.Platform.Models.{StoredChunk}
use ai_chatbot.Platform.Index.Intervals.{Interval, covers}
use ai_chatbot.Platform.Index.Port.{ServingIndex}

-- A row of `serving.chunks`: the stored chunk, and its embedding.
pub record ChunkRow (F : Type 0) : Type 0 where
  pub stored : StoredChunk F
  pub embedding : List F

-- A row of `serving.chunk_validity`.
pub record ValidityRow : Type 0 where
  pub chunk_id : String
  pub valid_from_version : ℕ
  pub valid_to_version : Option ℕ

pub record Tables (F : Type 0) : Type 0 where
  pub chunks : List (ChunkRow F)
  pub validity : List ValidityRow

abbrev pub empty_tables : {F : Type 0} → Tables F
empty_tables = record { chunks = []; validity = [] }

abbrev pub interval_of : ValidityRow → Interval
interval_of row = (row.valid_from_version, row.valid_to_version)

-- Insert with `on_conflict_do_nothing` on the key of both columns.
unfoldable pub insert_validity : ℕ → List String → List ValidityRow → List ValidityRow
insert_validity v [] rows = rows
insert_validity v (c ∷ cs) rows = insert_validity v cs (
    if any (λ row. row.chunk_id == c && row.valid_from_version == v) rows
    then rows
    else rows ++ (record { chunk_id = c; valid_from_version = v; valid_to_version = none } ∷ []))

abbrev pub is_open : Option ℕ → Bool
is_open none = true
is_open (some _) = false

unfoldable pub close_intervals : {F : Type 0} → List String → ℕ → M (Tables F) (Unit {0})
unfolding update_where
close_intervals [] v s = (ok tt, s)
close_intervals (c ∷ cs) v s = (
  ok tt,
  record s {
    validity =
        update_where
          (λ row.
            contains (c ∷ cs) row.chunk_id
            && is_open row.valid_to_version
            && ltb row.valid_from_version v)
          (λ row. record row { valid_to_version = some v }) s.validity;
  },
)

module _ {F : Type 0} where
  abbrev pub chunk_key : ChunkRow F → String
  chunk_key row = row.stored.chunk.chunk_id

  abbrev pub has_key : String → ChunkRow F → Bool
  has_key c row = chunk_key row == c

  -- The table's row of a chunk; the embedding of `row` is checked before.
  abbrev pub to_row : ChunkSet F → Chunk F → List F → ChunkRow F
  to_row set chunk vector = record {
    stored = record {
      chunk = record chunk { embedding = none };
      ingestion_run_id = set.ingestion_run_id;
      embedding_model = set.embedding_model;
      chunker_version = set.chunker_version;
    };
    embedding = vector;
  }

  -- Insert with `on_conflict_do_nothing` on `chunk_id`.
  unfoldable pub insert_chunks : List (ChunkRow F) → List (ChunkRow F) → List (ChunkRow F)
  insert_chunks [] rows = rows
  insert_chunks (row ∷ new) rows =
      insert_chunks new (if any (has_key (chunk_key row)) rows then rows else rows ++ (row ∷ []))

  unfoldable pub open_intervals : List String → ℕ → M (Tables F) (Unit {0})
  unfolding insert_validity
  open_intervals cs v s =
      if all (λ c. any (has_key c) s.chunks) cs
      then (ok tt, record s { validity = insert_validity v cs s.validity })
      else (raise integrity, s)

  -- The rows of the join that are visible at the version.
  unfoldable pub joined : List (ChunkRow F) → ℕ → List ValidityRow → List (String × String)
  unfolding find?
  joined chunks v [] = []
  joined chunks v (row ∷ rows) =
      let rest = joined chunks v rows in
      if covers v (interval_of row)
      then elim (find? (has_key row.chunk_id) chunks) [
        | none ↦ rest
        | some found ↦ (row.chunk_id, found.stored.chunk.doc_version) ∷ rest
      ]
      else rest

  unfoldable pub active_chunks : ℕ → Tables F → Result (Dict String)
  unfolding joined of_pairs
  active_chunks v s = ok (of_pairs (joined s.chunks v s.validity))

  unfoldable pub get_chunks : List String → Tables F → List (StoredChunk F)
  get_chunks cs s = map (λ row. row.stored) (keep (λ row. contains cs (chunk_key row)) s.chunks)

  module _ (dim : ℕ) where
    abbrev pub has_dim : Option (List F) → Bool
    has_dim none = false
    has_dim (some vector) = length vector == dim

    -- The rows, if every chunk has an embedding of the right length.
    unfoldable pub rows_of : ChunkSet F → List (Chunk F) → Result (List (ChunkRow F))
    rows_of set [] = ok []
    rows_of set (chunk ∷ chunks) = elim chunk.embedding [
      | none ↦ raise value_error
      | some vector ↦
          if length vector == dim
          then elim (rows_of set chunks) [
            | ok rows ↦ ok (to_row set chunk vector ∷ rows)
            | raise e ↦ raise e
          ]
          else raise value_error
    ]

    unfoldable pub add_chunk_set : ChunkSet F → M (Tables F) (Unit {0})
    unfolding rows_of insert_chunks
    add_chunk_set set s = elim (rows_of set set.chunks) [
      | ok rows ↦ (ok tt, record s { chunks = insert_chunks rows s.chunks })
      | raise e ↦ (raise e, s)
    ]

    abbrev pub pg_index : ServingIndex F
    pg_index = record {
      State = Tables F;
      add_chunk_set = add_chunk_set;
      open_intervals = open_intervals;
      close_intervals = close_intervals;
      active_chunks = active_chunks;
      get_chunks = get_chunks;
    }
