-- ===== src/Platform/Ingest.antt =====
-- `_write` of libs/platform/src/chatbot_platform/ingest.py, which every staged record goes through,
-- for a table with rows `A` and a primary key in `K`. `stamp now` sets the column `created_at`.
pub mod ChunkSets
use ai_chatbot.Base.{
  ℕ, Bool, true, false, ◌||◌, List, [], ◌∷◌, ◌++◌, map, ◌≡◌, refl, ap, arith, Result, ok, raise,
  integrity, if◌then◌else◌, Eq, contains, length, is_empty, Bool-cases, inl, inr,
}
use ai_chatbot.Base.Table.{delete_where}

module _ {K : Type 0} ⦃e : Eq K⦄ where
  -- Two of the rows that are inserted share a key, which the table refuses.
  abbrev pub has_twice : List K → Bool
  has_twice [] = false
  has_twice (k ∷ ks) = contains ks k || has_twice ks

module _ {A K : Type 0} ⦃e : Eq K⦄ (key : A → K) (stamp : ℕ → A → A) where
  -- The rows that stay: those whose key is not written anew.
  abbrev pub others : List A → List A → List A
  others rows table = delete_where (λ row. contains (map key rows) (key row)) table

  unfoldable pub write : List A → ℕ → List A → Result ℕ × List A
  write rows now table =
      if is_empty rows
      then (ok 0, table)
      else if has_twice (map key rows)
      then (raise integrity, table)
      else (ok (length rows), others rows table ++ map (stamp now) rows)

  others-append :
      (ks : List K) (xs ys : List A)
      → delete_where (λ row. contains ks (key row)) (xs ++ ys)
        ≡ delete_where (λ row. contains ks (key row)) xs
          ++ delete_where (λ row. contains ks (key row)) ys
  others-append ks [] ys = refl
  others-append ks (x ∷ xs) ys = ground (arith, others-append ks xs ys)

  others_twice :
      (ks : List K) (xs : List A)
      → delete_where (λ row. contains ks (key row)) (delete_where (λ row. contains ks (key row)) xs)
        ≡ delete_where (λ row. contains ks (key row)) xs
  others_twice ks [] = refl
  others_twice ks (x ∷ xs) = ground (arith, others_twice ks xs)

  others_none :
      (ks : List K) (now : ℕ) (rows : List A)
      → ((n : ℕ) (row : A) → key (stamp n row) ≡ key row)
      → ((row : A) → contains (map key rows) (key row) ≡ true → contains ks (key row) ≡ true)
      → delete_where (λ row. contains ks (key row)) (map (stamp now) rows) ≡ []
  others_none ks now [] same sub = refl
  others_none ks now (row ∷ rows) same sub =
      let written : contains ks (key row) ≡ true = sub row (ground arith) in
      rw (same now row, written) (others_none ks now rows same (λ r h. sub r (ground arith)))

  nil-append : (xs : List A) → xs ++ [] ≡ xs
  nil-append [] = refl
  nil-append (x ∷ xs) = ap (λ ys. x ∷ ys) (nil-append xs)

  -- Records that are written twice leave what the second writing alone would leave, where the time
  -- is no part of the key: one row to a key.
  pub write-twice :
      (rows : List A) (now later : ℕ) (table : List A)
      → ((n : ℕ) (row : A) → key (stamp n row) ≡ key row)
      → write rows later (write rows now table).1 ≡ write rows later table
  unfolding write
  write-twice rows now later table same = elim (Bool-cases (is_empty rows)) [
    | inl none_ ↦ rw none_ refl
    | inr some_ ↦ elim (Bool-cases (has_twice (map key rows))) [
      | inl twice ↦ rw (some_, twice) refl
      | inr once ↦
          rw
            (
              some_,
              once,
              others-append (map key rows) (others rows table) (map (stamp now) rows),
              others_twice (map key rows) table,
              others_none (map key rows) now rows same (λ row h. h),
              nil-append (others rows table),
            )
            refl
    ]
  ]
