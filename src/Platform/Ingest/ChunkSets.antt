-- ===== src/Platform/Ingest/ChunkSets.antt =====
-- `write_chunk_set`, `read_rows` and `read_chunk_sets` of
-- libs/platform/src/chatbot_platform/ingest.py, on the rows of `ingest.chunks`. Parameters: the JSON
-- values of the columns, and the order of texts that the database sorts by.
pub mod Laws
use ai_chatbot.Base.{
  ℕ, String, Bool, true, false, ◌&&◌, ◌||◌, Option, List, [], ◌∷◌, ◌++◌, map, ◌≡◌, ap, Result, ok,
  raise, ◌>>=◌, index_error, if◌then◌else◌, Eq, ◌==◌, string_eq, nat_eq, ltb, contains, keep,
  is_empty,
}
use ai_chatbot.Base.Sorting.{sort_by}
use ai_chatbot.Base.Texts.{text_before}
use ai_chatbot.Contracts.Enums.{RegionKind}
use ai_chatbot.Contracts.KnowledgeBase.{Chunk, ChunkSet}
use ai_chatbot.Platform.Ops.{StagedChunk}
use ai_chatbot.Platform.Ingest.{write}

-- The JSON values of the columns of a chunk, and what pydantic reads from them.
pub record Codec (F J : Type 0) : Type 0 where
  pub dump_texts : List String → J
  pub load_texts : J → Result (List String)
  pub dump_kinds : List RegionKind → J
  pub load_kinds : J → Result (List RegionKind)
  pub dump_vector : Option (List F) → J
  pub load_vector : J → Result (Option (List F))

-- The primary key: the run and the chunk.
abbrev pub Key : Type 0
Key = String × String

instance unfoldable pub key_eq : Eq Key
key_eq = record {
  dec = λ p q. elim (string_eq.dec p.0 q.0) [
    | no n ↦ no (λ h. n (ap (λ k. k.0) h))
    | yes e ↦ elim (string_eq.dec p.1 q.1) [
      | no n ↦ no (λ h. n (ap (λ k. k.1) h))
      | yes f ↦ yes (λ i. (e i, f i))
    ]
  ];
}

module _ {J : Type 0} where
  abbrev pub row_key : StagedChunk J → Key
  row_key row = (row.ingestion_run_id, row.chunk_id)

  abbrev pub stamp_row : ℕ → StagedChunk J → StagedChunk J
  stamp_row now row = record row { created_at = now }

  -- The rows of the runs, in the order of the primary key.
  unfoldable pub read_staged :
      (String → String → Bool) → List String → List (StagedChunk J) → List (StagedChunk J)
  unfolding sort_by
  read_staged collate run_ids table =
      if is_empty run_ids
      then []
      else sort_by
          (λ a b.
            collate a.ingestion_run_id b.ingestion_run_id
            || (a.ingestion_run_id == b.ingestion_run_id && collate a.chunk_id b.chunk_id))
          (keep (λ row. contains run_ids row.ingestion_run_id) table)

  abbrev pub group_key : StagedChunk J → Key
  group_key row = (row.ingestion_run_id, row.doc_version)

  -- `groups[key].append(row)`
  unfoldable pub append_row :
      StagedChunk J → List (Key × List (StagedChunk J)) → List (Key × List (StagedChunk J))
  append_row row [] = (group_key row, row ∷ []) ∷ []
  append_row row ((key, rows) ∷ groups) =
      if group_key row == key
      then (key, rows ++ (row ∷ [])) ∷ groups
      else (key, rows) ∷ append_row row groups

  unfoldable pub group_rows :
      List (StagedChunk J) → List (Key × List (StagedChunk J)) → List (Key × List (StagedChunk J))
  unfolding append_row
  group_rows [] groups = groups
  group_rows (row ∷ rows) groups = group_rows rows (append_row row groups)

  -- `rows.sort(key=lambda row: (row["page_start"], row["chunk_id"]))`
  abbrev pub page_before : StagedChunk J → StagedChunk J → Bool
  page_before a b =
      ltb a.page_start b.page_start
      || (a.page_start == b.page_start && text_before a.chunk_id b.chunk_id)

  module _ {F : Type 0} (C : Codec F J) where
    -- `header | chunk.model_dump(mode="json")`; the time is set when the row is written.
    abbrev pub chunk_row : ChunkSet F → Chunk F → StagedChunk J
    chunk_row set chunk = record {
      ingestion_run_id = set.ingestion_run_id;
      schema_version = set.schema_version;
      producer = set.producer;
      created_at = 0;
      chunk_id = chunk.chunk_id;
      doc_version = chunk.doc_version;
      embedding_model = set.embedding_model;
      chunker_version = set.chunker_version;
      page_start = chunk.page_start;
      page_end = chunk.page_end;
      section_path = C.dump_texts chunk.section_path;
      text = chunk.text;
      kinds = C.dump_kinds chunk.kinds;
      token_count = chunk.token_count;
      region_ids = C.dump_texts chunk.region_ids;
      embedding = C.dump_vector chunk.embedding;
    }

    unfoldable pub write_chunk_set :
        ChunkSet F → ℕ → List (StagedChunk J) → Result ℕ × List (StagedChunk J)
    unfolding write
    write_chunk_set set now table =
        write row_key stamp_row (map (chunk_row set) set.chunks) now table

    -- `Chunk(**{name: row[name] for name in Chunk.model_fields})`
    unfoldable pub chunk_of : StagedChunk J → Result (Chunk F)
    chunk_of row = do
      section_path ← C.load_texts row.section_path
      kinds ← C.load_kinds row.kinds
      region_ids ← C.load_texts row.region_ids
      embedding ← C.load_vector row.embedding
      ok (record {
        chunk_id = row.chunk_id;
        doc_version = row.doc_version;
        page_start = row.page_start;
        page_end = row.page_end;
        section_path = section_path;
        text = row.text;
        kinds = kinds;
        token_count = row.token_count;
        region_ids = region_ids;
        embedding = embedding;
      })

    unfoldable pub chunks_of : List (StagedChunk J) → Result (List (Chunk F))
    unfolding chunk_of
    chunks_of [] = ok []
    chunks_of (row ∷ rows) =
        chunk_of row >>= λ chunk. chunks_of rows >>= λ chunks. ok (chunk ∷ chunks)

    -- The chunk set with the header of the row.
    abbrev pub headed : StagedChunk J → List (Chunk F) → ChunkSet F
    headed row chunks = record {
      schema_version = row.schema_version;
      producer = row.producer;
      ingestion_run_id = row.ingestion_run_id;
      doc_version = row.doc_version;
      embedding_model = row.embedding_model;
      chunker_version = row.chunker_version;
      chunks = chunks;
    }

    -- The chunk set of the sorted rows of a group, which is not empty.
    unfoldable pub set_of : List (StagedChunk J) → Result (ChunkSet F)
    unfolding chunks_of
    set_of [] = raise index_error
    set_of (row ∷ rows) = chunks_of (row ∷ rows) >>= λ chunks. ok (headed row chunks)

    unfoldable pub sets_of : List (Key × List (StagedChunk J)) → Result (List (ChunkSet F))
    unfolding set_of sort_by
    sets_of [] = ok []
    sets_of ((key, rows) ∷ groups) =
        set_of (sort_by page_before rows) >>= λ set. sets_of groups >>= λ sets. ok (set ∷ sets)

    unfoldable pub read_chunk_sets :
        (String → String → Bool) → List String → List (StagedChunk J) → Result (List (ChunkSet F))
    unfolding read_staged group_rows sets_of
    read_chunk_sets collate run_ids table =
        sets_of (group_rows (read_staged collate run_ids table) [])
