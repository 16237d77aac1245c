-- ===== src/Platform/Ingest/ChunkSets/Laws.antt =====
-- A chunk set that was staged is rebuilt.
use mathlib.Core.List.{append-nil, append_assoc, Perm}
use mathlib.Core.List.Perm
use ai_chatbot.Base.{
  ℕ, String, Bool, true, false, not, ◌&&◌, ◌||◌, Option, List, [], ◌∷◌, ◌++◌, map, all, ◌≡◌, refl,
  sym, ap, ◌∙◌, arith, ok, ◌==◌, ==_iff, string_eq, nat_eq, ltb, contains, keep-append, keep-none,
  keep-all, all-keep, is_empty, is_empty-map,
}
use ai_chatbot.Base.Sorting.{
  sort_by, place_by, sort_by-perm, all-sort_by, sort_by-map, is_empty-place_by,
}
use ai_chatbot.Base.Texts.{text_before}
use ai_chatbot.Contracts.Enums.{RegionKind}
use ai_chatbot.Contracts.KnowledgeBase.{Chunk, ChunkSet}
use ai_chatbot.Platform.Ops.{StagedChunk}
use ai_chatbot.Platform.Ingest.{write, has_twice, others}
use ai_chatbot.Platform.Ingest.ChunkSets.{
  Codec, Key, key_eq, row_key, stamp_row, read_staged, group_key, append_row, group_rows,
  page_before, chunk_row, write_chunk_set, chunk_of, chunks_of, headed, set_of, sets_of,
  read_chunk_sets,
}

-- What a codec must satisfy: each value is read as it was written.
pub record IsFaithful {F J : Type 0} (C : Codec F J) : Type 0 where
  pub texts : (xs : List String) → C.load_texts (C.dump_texts xs) ≡ ok xs
  pub kinds : (xs : List RegionKind) → C.load_kinds (C.dump_kinds xs) ≡ ok xs
  pub vector : (v : Option (List F)) → C.load_vector (C.dump_vector v) ≡ ok v

same_text : (s : String) → (s == s) ≡ true
same_text s = (==_iff s s).1 refl

same_key : (k : Key) → (k == k) ≡ true
same_key k = (==_iff k k).1 refl

module _ {J : Type 0} where
  -- Rows of one group are one group.
  group_rows-one :
      (key : Key) (done rows : List (StagedChunk J))
      → all (λ row. group_key row == key) rows ≡ true
      → group_rows rows ((key, done) ∷ []) ≡ (key, done ++ rows) ∷ []
  unfolding group_rows append_row
  group_rows-one key done [] h = ap (λ xs. (key, xs) ∷ []) (sym (append-nil done))
  group_rows-one key done (row ∷ rows) h =
      let here : (group_key row == key) ≡ true = ground arith in
      rw here (
        group_rows-one key (done ++ (row ∷ [])) rows (ground arith)
        ∙ ap (λ xs. (key, xs) ∷ []) (append_assoc done (row ∷ []) rows))

  module _ {F : Type 0} (C : Codec F J) (faithful : IsFaithful C) (set : ChunkSet F) (now : ℕ) where
    -- The row of a chunk as it stands in the table.
    abbrev pub staged : Chunk F → StagedChunk J
    staged chunk = stamp_row now (chunk_row C set chunk)

    chunk_of-staged : (chunk : Chunk F) → chunk_of C (staged chunk) ≡ ok chunk
    unfolding chunk_of
    chunk_of-staged chunk =
        rw
          (
            faithful.texts chunk.section_path,
            faithful.kinds chunk.kinds,
            faithful.texts chunk.region_ids,
            faithful.vector chunk.embedding,
          )
          refl

    chunks_of-staged : (chunks : List (Chunk F)) → chunks_of C (map staged chunks) ≡ ok chunks
    unfolding chunks_of
    chunks_of-staged [] = refl
    chunks_of-staged (chunk ∷ chunks) = rw (chunk_of-staged chunk, chunks_of-staged chunks) refl

    -- The orders of the primary key, and of pages, on the chunks of a set.
    abbrev pub key_first : (String → String → Bool) → Chunk F → Chunk F → Bool
    key_first collate a b =
        collate set.ingestion_run_id set.ingestion_run_id
        || (set.ingestion_run_id == set.ingestion_run_id && collate a.chunk_id b.chunk_id)

    abbrev pub page_first : Chunk F → Chunk F → Bool
    page_first a b =
        ltb a.page_start b.page_start
        || (a.page_start == b.page_start && text_before a.chunk_id b.chunk_id)

    abbrev pub in_set : List (Chunk F) → Bool
    in_set chunks = all (λ chunk. chunk.doc_version == set.doc_version) chunks

    all-staged :
        (chunks : List (Chunk F))
        → in_set chunks ≡ true
        → all (λ row. group_key row == (set.ingestion_run_id, set.doc_version)) (map staged chunks)
          ≡ true
    all-staged [] h = refl
    all-staged (chunk ∷ chunks) h =
        let same : chunk.doc_version ≡ set.doc_version =
          (==_iff chunk.doc_version set.doc_version).0 (ground arith) in
        rw (same, same_key (set.ingestion_run_id, set.doc_version))
          (all-staged chunks (ground arith))

    -- The header of a staged row, with chunks.
    headed-staged :
        (chunk : Chunk F) (chunks : List (Chunk F))
        → chunk.doc_version ≡ set.doc_version
        → headed C (staged chunk) chunks ≡ record set { chunks = chunks }
    headed-staged chunk chunks h = rw h refl

    set_of-staged :
        (chunks : List (Chunk F))
        → is_empty chunks ≡ false
        → in_set chunks ≡ true
        → set_of C (map staged chunks) ≡ ok (record set { chunks = chunks })
    unfolding set_of
    set_of-staged [] h doc = cc
    set_of-staged (chunk ∷ chunks) h doc =
        let same : chunk.doc_version ≡ set.doc_version =
          (==_iff chunk.doc_version set.doc_version).0 (ground arith) in
        rw (chunks_of-staged (chunk ∷ chunks)) (ap ok (headed-staged chunk (chunk ∷ chunks) same))

    group_rows-staged :
        (chunks : List (Chunk F))
        → is_empty chunks ≡ false
        → in_set chunks ≡ true
        → group_rows (map staged chunks) []
          ≡ ((set.ingestion_run_id, set.doc_version), map staged chunks) ∷ []
    unfolding group_rows append_row
    group_rows-staged [] h doc = cc
    group_rows-staged (chunk ∷ chunks) h doc =
        let same : chunk.doc_version ≡ set.doc_version =
          (==_iff chunk.doc_version set.doc_version).0 (ground arith) in
        ap
          (λ doc.
            group_rows (map staged chunks) (((set.ingestion_run_id, doc), staged chunk ∷ []) ∷ []))
          same
        ∙ group_rows-one (set.ingestion_run_id, set.doc_version) (staged chunk ∷ [])
            (map staged chunks) (all-staged chunks (ground arith))

    map-staged :
        (chunks : List (Chunk F))
        → map (stamp_row now) (map (chunk_row C set) chunks) ≡ map staged chunks
    map-staged [] = refl
    map-staged (chunk ∷ chunks) = ap (λ rows. staged chunk ∷ rows) (map-staged chunks)

    in_run-staged :
        (chunks : List (Chunk F))
        → all (λ row. contains (set.ingestion_run_id ∷ []) row.ingestion_run_id) (map staged chunks)
          ≡ true
    in_run-staged [] = refl
    in_run-staged (chunk ∷ chunks) = rw (same_text set.ingestion_run_id) (in_run-staged chunks)

    -- The chunks as they are read: in the order of the key, and then of the pages.
    abbrev pub ordered : (String → String → Bool) → List (Chunk F)
    ordered collate = sort_by page_first (sort_by (key_first collate) set.chunks)

    -- The rows of the run after the chunk set is written, in the order of the key.
    read_staged-write :
        (collate : String → String → Bool) (table : List (StagedChunk J))
        → is_empty set.chunks ≡ false
        → has_twice (map row_key (map (chunk_row C set) set.chunks)) ≡ false
        → all (λ row. not (contains (set.ingestion_run_id ∷ []) row.ingestion_run_id)) table ≡ true
        → read_staged collate (set.ingestion_run_id ∷ []) (write_chunk_set C set now table).1
          ≡ map staged (sort_by (key_first collate) set.chunks)
    unfolding read_staged write_chunk_set write
    read_staged-write collate table some_ once fresh =
        let run = set.ingestion_run_id ∷ [] in
        let rows = map (chunk_row C set) set.chunks in
        let kept = others row_key stamp_row rows table in
        let is_mine : StagedChunk J → Bool = λ row. contains run row.ingestion_run_id in
        rw
          (
            is_empty-map (chunk_row C set) set.chunks,
            some_,
            once,
            keep-append is_mine kept (map (stamp_row now) rows),
            keep-none is_mine kept (all-keep (λ row. not (is_mine row)) _ table fresh),
            map-staged set.chunks,
            keep-all is_mine (map staged set.chunks) (in_run-staged set.chunks),
          )
          (sort_by-map _ staged set.chunks)

    is_empty-sort_by :
        (before : Chunk F → Chunk F → Bool) (chunks : List (Chunk F))
        → is_empty chunks ≡ false
        → is_empty (sort_by before chunks) ≡ false
    unfolding sort_by place_by
    is_empty-sort_by before [] h = h
    is_empty-sort_by before (chunk ∷ chunks) h =
        is_empty-place_by before chunk (sort_by before chunks)

    -- Where JSON columns are read as they were written, a chunk set with at least one chunk, with
    -- chunks of its own document and with distinct keys, that is written to a table with no row of
    -- its run, is read back for that run as one chunk set: the same header, and the same chunks in
    -- the order of the key and then of the pages.
    pub read_chunk_sets-write_chunk_set :
        (collate : String → String → Bool) (table : List (StagedChunk J))
        → is_empty set.chunks ≡ false
        → in_set set.chunks ≡ true
        → has_twice (map row_key (map (chunk_row C set) set.chunks)) ≡ false
        → all (λ row. not (contains (set.ingestion_run_id ∷ []) row.ingestion_run_id)) table ≡ true
        → (read_chunk_sets C collate (set.ingestion_run_id ∷ []) (write_chunk_set C set now table).1
            ≡ ok (record set { chunks = ordered collate } ∷ []))
          × Perm (ordered collate) set.chunks
    unfolding read_chunk_sets sets_of
    read_chunk_sets-write_chunk_set collate table some_ docs once fresh =
        let by_key = sort_by (key_first collate) set.chunks in
        let full = is_empty-sort_by (key_first collate) set.chunks some_ in
        let mine =
          all-sort_by (key_first collate) (λ chunk. chunk.doc_version == set.doc_version) set.chunks
          ∙ docs in
        (
          rw
              (
                read_staged-write collate table some_ once fresh,
                group_rows-staged by_key full mine,
                sort_by-map page_before staged by_key,
                set_of-staged (ordered collate) (is_empty-sort_by page_first by_key full) (
                    all-sort_by page_first (λ chunk. chunk.doc_version == set.doc_version) by_key
                    ∙ mine),
              )
              refl,
          Perm.trans (sort_by-perm page_first by_key) (sort_by-perm (key_first collate) set.chunks),
        )
