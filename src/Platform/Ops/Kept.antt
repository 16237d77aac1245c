-- ===== src/Platform/Ops/Kept.antt =====
-- What the retention sweeps leave: the foreign keys, the rows that are not old, and no old text.
use ai_chatbot.Base.{
  ℕ, String, Bool, true, false, ◌&&◌, ◌||◌, not, List, [], ◌∷◌, map, ◌≡◌, refl, arith, ltb, ◌==◌,
  string_eq, contains, keep, all, any,
}
use ai_chatbot.Base.Table.{update_where, delete_where}
use ai_chatbot.Platform.Ops.{Interaction, Ops}
use ai_chatbot.Platform.Ops.Retention.{
  is_old, has_text, blank_interaction, blank_text, expire_ops, old_requests,
}

empty_is_empty : ◌==◌ {A = String} "" "" ≡ true
unfolding string_eq
empty_is_empty = refl

module _ {F : Type 0} where
  abbrev pub has_request : String → Interaction F → Bool
  has_request id row = row.request_id == id

  abbrev pub is_kept : ℕ → Interaction F → Bool
  is_kept cutoff row = not (ltb row.created_at cutoff)

  -- `request_id` is the primary key.
  abbrev pub DistinctRequests : List (Interaction F) → Type 0
  DistinctRequests [] = Unit
  DistinctRequests (row ∷ rows) =
      (any (has_request row.request_id) rows ≡ false) × DistinctRequests rows

  -- An old text is blank: the question is empty.
  abbrev pub is_blank : Interaction F → Bool
  is_blank row = row.question_enc == ""

  blanked :
      (cutoff : ℕ) (rows : List (Interaction F))
      → all
          (λ row. not (is_old cutoff row) || is_blank row)
          (update_where (has_text cutoff) blank_interaction rows)
        ≡ true
  unfolding update_where
  blanked cutoff [] = refl
  blanked cutoff (row ∷ rows) = ground (arith, blanked cutoff rows, empty_is_empty)

  young_kept :
      (cutoff : ℕ) (rows : List (Interaction F))
      → keep (is_kept cutoff) (update_where (has_text cutoff) blank_interaction rows)
        ≡ keep (is_kept cutoff) rows
  unfolding update_where
  young_kept cutoff [] = refl
  young_kept cutoff (row ∷ rows) = ground (arith, young_kept cutoff rows)

  any-old :
      (cutoff : ℕ) (rows : List (Interaction F)) (id : String)
      → contains (map (λ row. row.request_id) (keep (is_old cutoff) rows)) id
        ≡ any (λ row. has_request id row && is_old cutoff row) rows
  any-old cutoff [] id = refl
  any-old cutoff (row ∷ rows) id = ground (arith, any-old cutoff rows id)

  -- A request that is not deleted keeps its interaction.
  any-delete :
      (ids : List String) (rows : List (Interaction F)) (id : String)
      → contains ids id ≡ false
      → any (has_request id) rows ≡ true
      → any (has_request id) (delete_where (λ row. contains ids row.request_id) rows) ≡ true
  any-delete ids [] id c h = h
  any-delete ids (row ∷ rows) id c h = ground (arith, any-delete ids rows id c)

  parents-delete :
      {A : Type 0} (request : A → String) (ids : List String) (rows : List (Interaction F))
      (xs : List A)
      → all (λ x. any (has_request (request x)) rows) xs ≡ true
      → all
          (λ x.
            any (has_request (request x)) (delete_where (λ row. contains ids row.request_id) rows))
          (delete_where (λ x. contains ids (request x)) xs)
        ≡ true
  parents-delete request ids rows [] h = refl
  parents-delete request ids rows (x ∷ xs) h =
      ground (arith, any-delete ids rows (request x), parents-delete request ids rows xs)

  delete-extra :
      (id : String) (ids : List String) (rows : List (Interaction F))
      → any (has_request id) rows ≡ false
      → delete_where (λ row. contains (id ∷ ids) row.request_id) rows
        ≡ delete_where (λ row. contains ids row.request_id) rows
  delete-extra id ids [] h = refl
  delete-extra id ids (row ∷ rows) h = ground (arith, delete-extra id ids rows)

  any-part :
      (p : Interaction F → Bool) (rows : List (Interaction F)) (id : String)
      → any (has_request id) rows ≡ false
      → any (λ row. has_request id row && p row) rows ≡ false
  any-part p [] id h = refl
  any-part p (row ∷ rows) id h = ground (arith, any-part p rows id)

  delete-old :
      (cutoff : ℕ) (rows : List (Interaction F))
      → DistinctRequests rows
      → delete_where
          (λ row. contains (map (λ x. x.request_id) (keep (is_old cutoff) rows)) row.request_id)
          rows
        ≡ keep (is_kept cutoff) rows
  delete-old cutoff [] d = refl
  delete-old cutoff (row ∷ rows) d = ground (
    arith,
    delete-old cutoff rows d.1,
    delete-extra row.request_id (map (λ x. x.request_id) (keep (is_old cutoff) rows)) rows d.0,
    any-old cutoff rows row.request_id,
    any-part (is_old cutoff) rows row.request_id d.0,
  )

module _ {F J : Type 0} where
  -- Every citation and every tool call belongs to an interaction: the foreign keys.
  abbrev pub has_parents : Ops F J → Bool
  has_parents s =
      all (λ row. any (has_request row.request_id) s.interactions) s.citations
      && all (λ row. any (has_request row.request_id) s.interactions) s.tool_calls

  -- `blank_text` leaves no old interaction with the text of its question, and every interaction that
  -- is not old as it was.
  pub blank_text_lem :
      (cutoff : ℕ) (s : Ops F J)
      → (all (λ row. not (is_old cutoff row) || is_blank row) (blank_text cutoff s).1.interactions
          ≡ true)
        × (keep (is_kept cutoff) (blank_text cutoff s).1.interactions
            ≡ keep (is_kept cutoff) s.interactions)
  unfolding blank_text
  blank_text_lem cutoff s = (blanked cutoff s.interactions, young_kept cutoff s.interactions)

  -- With distinct requests, `expire_ops` deletes the old interactions and no other, and every
  -- citation and tool call that is left still belongs to an interaction.
  pub expire_ops_lem :
      (cutoff : ℕ) (s : Ops F J)
      → DistinctRequests s.interactions
      → has_parents s ≡ true
      → (has_parents (expire_ops cutoff s).1 ≡ true)
        × ((expire_ops cutoff s).1.interactions ≡ keep (is_kept cutoff) s.interactions)
  unfolding expire_ops
  expire_ops_lem cutoff s d h = (
    ground (
      arith,
      parents-delete (λ row. row.request_id) (old_requests cutoff s) s.interactions s.citations,
      parents-delete (λ row. row.request_id) (old_requests cutoff s) s.interactions s.tool_calls,
    ),
    delete-old cutoff s.interactions d,
  )
