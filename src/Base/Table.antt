-- ===== src/Base/Table.antt =====
-- Tables as the SQL statements of the platform see them: a table is the list of its rows in the
-- order of insertion, and a statement reads or writes the rows that meet its condition.
use Prim.Native.Nat.{ℕ}
use mathlib.Core.Path.{◌≡◌, refl}
use mathlib.Core.Bool.{Bool, true, false, not}
use mathlib.Core.Option.{Option, none, some}
use mathlib.Core.List.{List, [], ◌∷◌, ◌++◌, map}
use native.Mathlib.Omega.{arith}
use ai_chatbot.Base.Equality.{if◌then◌else◌}
use ai_chatbot.Base.Lists.{keep, any, length}

module _ {ℓ} {A : Type ℓ} where
  -- The first row of a `select … where p`.
  unfoldable pub find? : (A → Bool) → List A → Option A
  find? p [] = none
  find? p (x ∷ xs) = if p x then some x else find? p xs

  -- `update … where p`, the rows in place.
  unfoldable pub update_where : (A → Bool) → (A → A) → List A → List A
  update_where p f = map (λ x. if p x then f x else x)

  -- `rowcount` of a statement with the condition `p`.
  unfoldable pub count_where : (A → Bool) → List A → ℕ
  count_where p xs = length (keep p xs)

  -- `delete … where p`
  abbrev pub delete_where : (A → Bool) → List A → List A
  delete_where p = keep (λ x. not (p x))

  pub find?-append :
      (p : A → Bool) (xs ys : List A)
      → find? p (xs ++ ys) ≡ (elim (find? p xs) [ none ↦ find? p ys | some x ↦ some x ])
  unfolding find?
  find?-append p [] ys = refl
  find?-append p (x ∷ xs) ys = ground (arith, find?-append p xs ys)

  pub find?-sound : (p : A → Bool) (xs : List A) (x : A) → find? p xs ≡ some x → p x ≡ true
  unfolding find?
  find?-sound p [] x h = cc
  find?-sound p (y ∷ xs) x h = ground (arith, find?-sound p xs x)

  -- An update that keeps the key `p` of every row finds the updated row.
  pub find?-update_where :
      (p q : A → Bool) (f : A → A) (xs : List A)
      → ((x : A) → p (f x) ≡ p x)
      → find? p (update_where q f xs)
        ≡ (elim (find? p xs) [ none ↦ none | some x ↦ some (if q x then f x else x) ])
  unfolding find? update_where
  find?-update_where p q f [] h = refl
  find?-update_where p q f (x ∷ xs) h = ground (arith, h x, find?-update_where p q f xs h)

  pub any-update_where :
      (p q : A → Bool) (f : A → A) (xs : List A)
      → ((x : A) → p (f x) ≡ p x)
      → any p (update_where q f xs) ≡ any p xs
  unfolding update_where
  any-update_where p q f [] h = refl
  any-update_where p q f (x ∷ xs) h = ground (arith, h x, any-update_where p q f xs h)

  pub any-find? : (p : A → Bool) (xs : List A) → any p xs ≡ false → find? p xs ≡ none
  unfolding find?
  any-find? p [] h = refl
  any-find? p (x ∷ xs) h = ground (arith, any-find? p xs)
