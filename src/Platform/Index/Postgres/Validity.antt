-- ===== src/Platform/Index/Postgres/Validity.antt =====
-- The intervals of one chunk under the statements on `serving.chunk_validity`.
use ai_chatbot.Base.{
  ℕ, String, ◌&&◌, none, some, List, [], ◌∷◌, ◌++◌, map, ◌≡◌, refl, if◌then◌else◌, arith, contains,
  ◌==◌, string_eq, nat_eq, any, ltb,
}
use mathlib.Core.List.{append-nil}
use ai_chatbot.Base.Table.{update_where}
use ai_chatbot.Platform.Index.Intervals.{Interval, close_at, open_at, starts_at, open_at_twice}
use ai_chatbot.Platform.Index.Postgres.{ValidityRow, interval_of, insert_validity, is_open}

-- The intervals of one chunk, in the order of the rows.
abbrev pub intervals_in : List ValidityRow → String → List Interval
intervals_in [] c = []
intervals_in (row ∷ rows) c =
    if row.chunk_id == c then interval_of row ∷ intervals_in rows c else intervals_in rows c

pub intervals_in-append :
    (xs ys : List ValidityRow) (c : String)
    → intervals_in (xs ++ ys) c ≡ intervals_in xs c ++ intervals_in ys c
intervals_in-append [] ys c = refl
intervals_in-append (x ∷ xs) ys c = ground (arith, intervals_in-append xs ys c)

any-intervals_in :
    (v : ℕ) (c : String) (rows : List ValidityRow)
    → any (λ row. row.chunk_id == c && row.valid_from_version == v) rows
      ≡ any (starts_at v) (intervals_in rows c)
any-intervals_in v c [] = refl
any-intervals_in v c (row ∷ rows) = ground (arith, any-intervals_in v c rows)

abbrev new_row : String → ℕ → ValidityRow
new_row c v = record { chunk_id = c; valid_from_version = v; valid_to_version = none }

-- One row of the insert.
abbrev insert_one : ℕ → String → List ValidityRow → List ValidityRow
insert_one v c rows =
    if any (λ row. row.chunk_id == c && row.valid_from_version == v) rows
    then rows
    else rows ++ (new_row c v ∷ [])

insert_one_lem :
    (v : ℕ) (c k : String) (rows : List ValidityRow)
    → intervals_in (insert_one v c rows) k
      ≡ (if c == k then open_at v (intervals_in rows k) else intervals_in rows k)
insert_one_lem v c k rows = ground (
  arith,
  any-intervals_in v c rows,
  intervals_in-append rows (new_row c v ∷ []) k,
  append-nil (intervals_in rows k),
)

pub insert_validity_lem :
    (v : ℕ) (cs : List String) (rows : List ValidityRow) (k : String)
    → intervals_in (insert_validity v cs rows) k
      ≡ (if contains cs k then open_at v (intervals_in rows k) else intervals_in rows k)
unfolding insert_validity
insert_validity_lem v [] rows k = refl
insert_validity_lem v (c ∷ cs) rows k = ground (
  arith,
  insert_validity_lem v cs (insert_one v c rows) k,
  insert_one_lem v c k rows,
  open_at_twice v (intervals_in rows k),
)

pub close_rows_lem :
    (cs : List String) (v : ℕ) (rows : List ValidityRow) (k : String)
    → intervals_in
        (update_where
          (λ row.
            contains cs row.chunk_id
            && is_open row.valid_to_version
            && ltb row.valid_from_version v)
          (λ row. record row { valid_to_version = some v })
          rows)
        k
      ≡ (if contains cs k then map (close_at v) (intervals_in rows k) else intervals_in rows k)
unfolding update_where
close_rows_lem cs v [] k = ground arith
close_rows_lem cs v (row ∷ rows) k = ground (arith, close_rows_lem cs v rows k)
