-- ===== src/Platform/Index/Postgres/Lawful.antt =====
-- The Postgres adapter keeps the contract of the port.
use ai_chatbot.Base.{
  ℕ, String, Bool, true, false, ◌||◌, none, some, List, [], ◌∷◌, ◌++◌, map, ◌≡◌, refl, ap, ◌∙◌,
  Result, ok, raise, if◌then◌else◌, arith, contains, string_eq, nat_eq, is_some, all, any,
  from_some, any-append, all-append,
}
use ai_chatbot.Base.Table.{find?, update_where, find?-append}
use ai_chatbot.Contracts.KnowledgeBase.{Chunk, ChunkSet}
use ai_chatbot.Platform.Models.{StoredChunk}
use ai_chatbot.Platform.Index.Intervals.{close_at}
use ai_chatbot.Platform.Index.Port.{IsLawful, chunk_ids}
use ai_chatbot.Platform.Index.Postgres.{
  ChunkRow, ValidityRow, Tables, insert_validity, close_intervals, chunk_key, has_key,
  insert_chunks, open_intervals, has_dim, rows_of, add_chunk_set, pg_index,
}
use ai_chatbot.Platform.Index.Postgres.Validity.{intervals_in, insert_validity_lem, close_rows_lem}
use ai_chatbot.Platform.Index.Postgres.Active.{
  IsValid, stored_in, is_some-stored_in, postgres_active_lem, visible_backed,
}

abbrev rows_or_nil : {A : Type 0} → Result (List A) → List A
rows_or_nil (ok rows) = rows
rows_or_nil (raise e) = []

abbrev is_ok : {A : Type 0} → Result A → Bool
is_ok (ok _) = true
is_ok (raise e) = false

module _ {F : Type 0} where
  -- The insert of chunks keeps the rows that are there, and has a row for every new one.
  insert_chunks-keeps :
      (new rows : List (ChunkRow F)) (c : String) (x : ChunkRow F)
      → find? (has_key c) rows ≡ some x
      → find? (has_key c) (insert_chunks new rows) ≡ some x
  unfolding insert_chunks
  insert_chunks-keeps [] rows c x h = h
  insert_chunks-keeps (row ∷ new) rows c x h =
      insert_chunks-keeps new _ c x (ground (arith, find?-append (has_key c) rows (row ∷ [])))

  insert_chunks-any :
      (new rows : List (ChunkRow F)) (c : String)
      → any (has_key c) (insert_chunks new rows) ≡ (any (has_key c) new || any (has_key c) rows)
  unfolding insert_chunks
  insert_chunks-any [] rows c = refl
  insert_chunks-any (row ∷ new) rows c = ground (
    arith,
    insert_chunks-any new (if any (has_key (chunk_key row)) rows then rows else rows ++ (row ∷ []))
        c,
    any-append (has_key c) rows (row ∷ []),
  )

  all_backed_mono :
      (xs ys : List (ChunkRow F)) (rows : List ValidityRow)
      → ((c : String) → any (has_key c) xs ≡ true → any (has_key c) ys ≡ true)
      → all (λ row. any (has_key row.chunk_id) xs) rows ≡ true
      → all (λ row. any (has_key row.chunk_id) ys) rows ≡ true
  all_backed_mono xs ys [] f h = refl
  all_backed_mono xs ys (row ∷ rows) f h =
      ground (arith, f row.chunk_id, all_backed_mono xs ys rows f)

  insert_validity-backed :
      (chunks : List (ChunkRow F)) (v : ℕ) (cs : List String) (rows : List ValidityRow)
      → all (λ c. any (has_key c) chunks) cs ≡ true
      → all (λ row. any (has_key row.chunk_id) chunks) rows ≡ true
      → all (λ row. any (has_key row.chunk_id) chunks) (insert_validity v cs rows) ≡ true
  unfolding insert_validity
  insert_validity-backed chunks v [] rows g h = h
  insert_validity-backed chunks v (c ∷ cs) rows g h =
      insert_validity-backed chunks v cs _ (ground arith) (
        ground (
          arith,
          all-append (λ row. any (has_key row.chunk_id) chunks) rows
              (record { chunk_id = c; valid_from_version = v; valid_to_version = none } ∷ []),
        ))

  close-backed :
      (chunks : List (ChunkRow F)) (p : ValidityRow → Bool) (v : ℕ) (rows : List ValidityRow)
      → all (λ row. any (has_key row.chunk_id) chunks) rows ≡ true
      → all
          (λ row. any (has_key row.chunk_id) chunks)
          (update_where p (λ row. record row { valid_to_version = some v }) rows)
        ≡ true
  unfolding update_where
  close-backed chunks p v [] h = refl
  close-backed chunks p v (row ∷ rows) h = ground (arith, close-backed chunks p v rows)

  all-stored_in :
      (rows : List (ChunkRow F)) (cs : List String)
      → all (λ c. is_some (stored_in rows c)) cs ≡ all (λ c. any (has_key c) rows) cs
  all-stored_in rows [] = refl
  all-stored_in rows (c ∷ cs) = ground (arith, is_some-stored_in rows c, all-stored_in rows cs)

  -- The keys of the rows that a chunk set becomes.
  module _ (dim : ℕ) where
    rows_of-keys :
        (set : ChunkSet F) (chunks : List (Chunk F)) (c : String)
        → is_ok (rows_of dim set chunks) ≡ true
        → any (has_key c) (rows_or_nil (rows_of dim set chunks))
          ≡ contains (map (λ chunk. chunk.chunk_id) chunks) c
    unfolding rows_of
    rows_of-keys set [] c h = refl
    rows_of-keys set (chunk ∷ chunks) c h = ground (arith, rows_of-keys set chunks c)

    rows_of-ok :
        (set : ChunkSet F) (chunks : List (Chunk F))
        → all (λ chunk. has_dim dim chunk.embedding) chunks ≡ true
        → is_ok (rows_of dim set chunks) ≡ true
    unfolding rows_of
    rows_of-ok set [] h = refl
    rows_of-ok set (chunk ∷ chunks) h = ground (arith, rows_of-ok set chunks)

    -- What `add_chunk_set` leaves, by whether the rows could be made.
    add_lem : (s : Tables F) (set : ChunkSet F) → (add_chunk_set dim set s).1.validity ≡ s.validity
    unfolding add_chunk_set
    add_lem s set = ground arith

    add_ok :
        (s : Tables F) (set : ChunkSet F)
        → all (λ chunk. has_dim dim chunk.embedding) set.chunks ≡ true
        → (add_chunk_set dim set s).0 ≡ ok tt
    unfolding add_chunk_set
    add_ok s set h = ground (arith, rows_of-ok set set.chunks)

    add_keeps :
        (s : Tables F) (set : ChunkSet F) (c : String) (x : StoredChunk F)
        → stored_in s.chunks c ≡ some x
        → stored_in (add_chunk_set dim set s).1.chunks c ≡ some x
    unfolding add_chunk_set
    add_keeps s set c x h = from_some (find? (has_key c) s.chunks) (ground arith) (λ row e.
        ground
          (arith, insert_chunks-keeps (rows_or_nil (rows_of dim set set.chunks)) s.chunks c row e))

    add_any :
        (s : Tables F) (set : ChunkSet F) (c : String)
        → any (has_key c) s.chunks ≡ true
        → any (has_key c) (add_chunk_set dim set s).1.chunks ≡ true
    unfolding add_chunk_set
    add_any s set c h =
        ground (arith, insert_chunks-any (rows_or_nil (rows_of dim set set.chunks)) s.chunks c)

    add_stores :
        (s : Tables F) (set : ChunkSet F) (c : String)
        → (add_chunk_set dim set s).0 ≡ ok tt
        → contains (chunk_ids set) c ≡ true
        → any (has_key c) (add_chunk_set dim set s).1.chunks ≡ true
    unfolding add_chunk_set
    add_stores s set c h m = ground (
      arith,
      rows_of-keys set set.chunks c,
      insert_chunks-any (rows_or_nil (rows_of dim set set.chunks)) s.chunks c,
    )

    add-IsValid :
        (s : Tables F) (set : ChunkSet F) → IsValid s → IsValid (add_chunk_set dim set s).1
    add-IsValid s set h =
        rw (add_lem s set)
          (all_backed_mono s.chunks (add_chunk_set dim set s).1.chunks s.validity (add_any s set) h)

  open_lem :
      (s : Tables F) (cs : List String) (v : ℕ)
      → all (λ c. is_some (stored_in s.chunks c)) cs ≡ true
      → open_intervals cs v s ≡ (ok tt, record s { validity = insert_validity v cs s.validity })
  unfolding open_intervals
  open_lem s cs v h = ground (arith, all-stored_in s.chunks cs)

  open-IsValid :
      (s : Tables F) (cs : List String) (v : ℕ) → IsValid s → IsValid (open_intervals cs v s).1
  unfolding open_intervals
  open-IsValid s cs v h = ground (arith, insert_validity-backed s.chunks v cs s.validity)

  open_chunks :
      (s : Tables F) (cs : List String) (v : ℕ) → (open_intervals cs v s).1.chunks ≡ s.chunks
  unfolding open_intervals
  open_chunks s cs v = ground arith

  close_chunks :
      (s : Tables F) (cs : List String) (v : ℕ) → (close_intervals cs v s).1.chunks ≡ s.chunks
  unfolding close_intervals
  close_chunks s [] v = refl
  close_chunks s (c ∷ cs) v = refl

  close_ok : (s : Tables F) (cs : List String) (v : ℕ) → (close_intervals cs v s).0 ≡ ok tt
  unfolding close_intervals
  close_ok s [] v = refl
  close_ok s (c ∷ cs) v = refl

  close-IsValid :
      (s : Tables F) (cs : List String) (v : ℕ) → IsValid s → IsValid (close_intervals cs v s).1
  unfolding close_intervals
  close-IsValid s [] v h = h
  close-IsValid s (c ∷ cs) v h = close-backed s.chunks _ v s.validity h

  close_lem :
      (s : Tables F) (cs : List String) (v : ℕ) (k : String)
      → intervals_in (close_intervals cs v s).1.validity k ≡ (
          if contains cs k
          then map (close_at v) (intervals_in s.validity k)
          else intervals_in s.validity k)
  unfolding close_intervals
  close_lem s [] v k = refl
  close_lem s (c ∷ cs) v k = close_rows_lem (c ∷ cs) v s.validity k

-- The Postgres index fulfils the contract of the port, whatever its number of dimensions.
pub pg_lawful : {F : Type 0} (dim : ℕ) → IsLawful (pg_index {F = F} dim)
pg_lawful {F} dim = record {
  IsValid = IsValid;
  intervals = λ s. intervals_in s.validity;
  stored = λ s. stored_in s.chunks;
  accepts = λ set. all (λ chunk. has_dim dim chunk.embedding) set.chunks;
  stored_of_visible =
      λ s h c v seen. is_some-stored_in s.chunks c ∙ visible_backed s.chunks s.validity c v h seen;
  active = postgres_active_lem;
  add_ok = add_ok dim;
  add_valid = add-IsValid dim;
  add_intervals = λ s set c. ap (λ rows. intervals_in rows c) (add_lem dim s set);
  add_keeps = add_keeps dim;
  add_stores = λ s set e c m.
      is_some-stored_in (add_chunk_set dim set s).1.chunks c ∙ add_stores dim s set c e m;
  open_ok = λ s cs v h. ap (λ r. r.0) (open_lem s cs v h);
  open_valid = open-IsValid;
  open_stored = λ s cs v c. ap (λ rows. stored_in rows c) (open_chunks s cs v);
  open_intervals_lem = λ s cs v h c.
      ap (λ r. intervals_in r.1.validity c) (open_lem s cs v h)
      ∙ insert_validity_lem v cs s.validity c;
  close_ok = close_ok;
  close_valid = close-IsValid;
  close_stored = λ s cs v c. ap (λ rows. stored_in rows c) (close_chunks s cs v);
  close_intervals_lem = close_lem;
}
