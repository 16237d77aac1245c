-- ===== src/Base/Sets.antt =====
-- Python sets of texts, as lists that are read through `contains` alone; `sorted` of a set.
use Prim.Native.Nat.{Ordering}
use Prim.Native.String.{String, compare}
use mathlib.Core.Path.{◌≡◌, refl, ap, ◌∙◌}
use text.Mathlib.TextEquality.{path_by_compare}
use mathlib.Core.Bool.{Bool, true, false, ◌&&◌, ◌||◌, not}
use mathlib.Core.List.{List, [], ◌∷◌, ◌++◌}
use native.Mathlib.Omega.{arith}
use ai_chatbot.Base.Equality.{Eq, ◌==◌, contains, string_eq, if◌then◌else◌}
use ai_chatbot.Base.Lists.{keep, all, is_empty}

module _ {ℓ} {A : Type ℓ} ⦃e : Eq A⦄ where
  -- `s - t`
  unfoldable pub minus : List A → List A → List A
  minus s t = keep (λ x. not (contains t x)) s

  -- The elements of a list once each, as `set(xs)` is walked.
  unfoldable pub distinct : List A → List A
  distinct [] = []
  distinct (x ∷ xs) = if contains xs x then distinct xs else x ∷ distinct xs

  pub contains-append :
      (a : A) (xs ys : List A) → contains (xs ++ ys) a ≡ (contains xs a || contains ys a)
  contains-append a [] ys = refl
  contains-append a (x ∷ xs) ys = ground (arith, contains-append a xs ys)

  pub contains-keep :
      (p : A → Bool) (a : A) (xs : List A) → contains (keep p xs) a ≡ (contains xs a && p a)
  contains-keep p a [] = refl
  contains-keep p a (x ∷ xs) = ground (arith, contains-keep p a xs)

  pub contains-minus :
      (a : A) (s t : List A) → contains (minus s t) a ≡ (contains s a && not (contains t a))
  unfolding minus
  contains-minus a s t = contains-keep (λ x. not (contains t x)) a s

  pub contains-distinct : (a : A) (xs : List A) → contains (distinct xs) a ≡ contains xs a
  unfolding distinct
  contains-distinct a [] = refl
  contains-distinct a (x ∷ xs) = ground (arith, contains-distinct a xs)

-- One step of `sorted`: the texts are in the order of their code points, and none stands twice.
unfoldable pub place : String → List String → List String
place x [] = x ∷ []
place x (y ∷ ys) = elim (compare x y) [
  | Ordering.lt ↦ x ∷ y ∷ ys
  | Ordering.eq ↦ y ∷ ys
  | Ordering.gt ↦ y ∷ place x ys
]

-- `sorted(set(xs))`
unfoldable pub sorted_set : List String → List String
unfolding place
sorted_set [] = []
sorted_set (x ∷ xs) = place x (sorted_set xs)

pub contains-place :
    (a x : String) (ys : List String) → contains (place x ys) a ≡ (a == x || contains ys a)
unfolding place
contains-place a x [] = refl
contains-place a x (y ∷ ys) = ground (arith, contains-place a x ys, path_by_compare x y)

pub contains-sorted_set :
    (a : String) (xs : List String) → contains (sorted_set xs) a ≡ contains xs a
unfolding sorted_set
contains-sorted_set a [] = refl
contains-sorted_set a (x ∷ xs) =
    contains-place a x (sorted_set xs) ∙ ap (λ b. a == x || b) (contains-sorted_set a xs)

is_empty-place : (x : String) (xs : List String) → is_empty (place x xs) ≡ false
unfolding place
is_empty-place x [] = refl
is_empty-place x (y ∷ ys) = ground arith

pub is_empty-sorted_set : (xs : List String) → is_empty (sorted_set xs) ≡ is_empty xs
unfolding sorted_set
is_empty-sorted_set [] = refl
is_empty-sorted_set (x ∷ xs) = is_empty-place x (sorted_set xs)

pub all-contains :
    {A : Type 0} ⦃e : Eq A⦄ (p : A → Bool) (xs : List A) (x : A)
    → all p xs ≡ true
    → contains xs x ≡ true
    → p x ≡ true
all-contains p [] x h found = cc
all-contains p (y ∷ xs) x h found = ground (arith, all-contains p xs x)
