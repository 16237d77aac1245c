-- ===== src/Platform/Index/Postgres/Active.antt =====
-- `active_chunks` on Postgres returns exactly the visible chunks of a valid index.
use ai_chatbot.Base.{
  ℕ, String, true, Option, none, some, List, [], ◌∷◌, ◌≡◌, refl, ◌∙◌, ok, if◌then◌else◌, arith,
  ◌==◌, string_eq, nat_eq, is_some, all, any, from_some, Bool-cases, inl, inr,
}
use mathlib.Core.Option
use ai_chatbot.Base.Dict.{Dict, lookup, of_pairs, last_or, lookup-merge, NodupKeys, merge-NodupKeys}
use ai_chatbot.Base.Table.{find?}
use ai_chatbot.Platform.Models.{StoredChunk}
use ai_chatbot.Platform.Index.Intervals.{covers, is_visible}
use ai_chatbot.Platform.Index.Port.{doc_of}
use ai_chatbot.Platform.Index.Postgres.{
  ChunkRow, ValidityRow, Tables, interval_of, has_key, joined, active_chunks,
}
use ai_chatbot.Platform.Index.Postgres.Validity.{intervals_in}

-- Every interval belongs to a stored chunk: the foreign key.
module _ {F : Type 0} where
  abbrev pub IsValid : Tables F → Type 0
  IsValid s = all (λ row. any (has_key row.chunk_id) s.chunks) s.validity ≡ true

  abbrev pub stored_in : List (ChunkRow F) → String → Option (StoredChunk F)
  stored_in rows c = Option.map (λ row. row.stored) (find? (has_key c) rows)

  pub is_some-stored_in :
      (rows : List (ChunkRow F)) (c : String) → is_some (stored_in rows c) ≡ any (has_key c) rows
  unfolding find?
  is_some-stored_in [] c = refl
  is_some-stored_in (row ∷ rows) c = ground (arith, is_some-stored_in rows c)

  last_or-joined :
      (chunks : List (ChunkRow F)) (v : ℕ) (rows : List ValidityRow)
      → all (λ row. any (has_key row.chunk_id) chunks) rows ≡ true
      → (old : Option String) (c : String)
      → last_or old c (joined chunks v rows)
        ≡ (if is_visible (intervals_in rows c) v then doc_of (stored_in chunks c) else old)
  unfolding joined last_or
  last_or-joined chunks v [] h old c = refl
  last_or-joined chunks v (row ∷ rows) h old c = elim (Bool-cases (covers v (interval_of row))) [
    | inl seen ↦
        from_some (find? (has_key row.chunk_id) chunks)
          (ground (arith, is_some-stored_in chunks row.chunk_id))
          (λ found e.
            let doc = found.stored.chunk.doc_version in
            ground (
              arith,
              last_or-joined chunks v rows (ground arith)
                  (if c == row.chunk_id then some doc else old) c,
            ))
    | inr hidden ↦ ground (arith, last_or-joined chunks v rows (ground arith) old c)
  ]

  pub postgres_active_lem :
      (s : Tables F)
      → IsValid s
      → (v : ℕ)
      → (d : Dict String) × (active_chunks v s ≡ ok d)
        × NodupKeys d
        × ((c : String)
            → lookup c d ≡ (
                if is_visible (intervals_in s.validity c) v
                then doc_of (stored_in s.chunks c)
                else none))
  unfolding active_chunks lookup
  postgres_active_lem s h v = (
    of_pairs (joined s.chunks v s.validity),
    refl,
    merge-NodupKeys [] (joined s.chunks v s.validity) tt,
    λ c. lookup-merge c [] _ ∙ last_or-joined s.chunks v s.validity h none c,
  )

  pub visible_backed :
      (chunks : List (ChunkRow F)) (rows : List ValidityRow) (c : String) (v : ℕ)
      → all (λ row. any (has_key row.chunk_id) chunks) rows ≡ true
      → is_visible (intervals_in rows c) v ≡ true
      → any (has_key c) chunks ≡ true
  visible_backed chunks [] c v h seen = cc
  visible_backed chunks (row ∷ rows) c v h seen = ground (arith, visible_backed chunks rows c v)
