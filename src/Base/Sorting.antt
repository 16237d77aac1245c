-- ===== src/Base/Sorting.antt =====
-- Python's `sorted`, which is stable, by a test `before x y` that x must come before y; and the
-- first `n` of what it returns.
use Prim.Native.Nat.{ℕ, zero, suc, min}
use mathlib.Core.Path.{◌≡◌, refl, ap, ◌∙◌}
use mathlib.Core.Bool.{Bool, true, false, ◌&&◌, not}
use mathlib.Core.Logic.{inl, inr}
use mathlib.Core.List.{List, [], ◌∷◌, ◌++◌, map, Perm}
use mathlib.Core.List.Perm
use native.Mathlib.Omega.{arith}
use ai_chatbot.Base.Equality.{if◌then◌else◌, Bool-cases}
use ai_chatbot.Base.Lists.{length, all, take, is_empty}

module _ {ℓ} {A : Type ℓ} where
  -- `xs[n:]`
  abbrev pub drop : ℕ → List A → List A
  drop zero xs = xs
  drop (suc n) [] = []
  drop (suc n) (x ∷ xs) = drop n xs

  pub take-append-drop : (n : ℕ) (xs : List A) → take n xs ++ drop n xs ≡ xs
  take-append-drop zero xs = refl
  take-append-drop (suc n) [] = refl
  take-append-drop (suc n) (x ∷ xs) = ap (λ ys. x ∷ ys) (take-append-drop n xs)

  pub length-take : (n : ℕ) (xs : List A) → length (take n xs) ≡ min n (length xs)
  length-take zero xs = omega arith
  length-take (suc n) [] = omega arith
  length-take (suc n) (x ∷ xs) = omega (arith, length-take n xs)

  all-weaken :
      (p q : A → Bool) (xs : List A)
      → ((x : A) → p x ≡ true → q x ≡ true)
      → all p xs ≡ true
      → all q xs ≡ true
  all-weaken p q [] h a = refl
  all-weaken p q (x ∷ xs) h a = ground (arith, h x, all-weaken p q xs h)

  all-drop : (p : A → Bool) (n : ℕ) (xs : List A) → all p xs ≡ true → all p (drop n xs) ≡ true
  all-drop p zero xs h = h
  all-drop p (suc n) [] h = h
  all-drop p (suc n) (x ∷ xs) h = all-drop p n xs (ground arith)

  all-take : (p : A → Bool) (n : ℕ) (xs : List A) → all p xs ≡ true → all p (take n xs) ≡ true
  all-take p zero xs h = refl
  all-take p (suc n) [] h = h
  all-take p (suc n) (x ∷ xs) h = ground (arith, all-take p n xs)

  -- What a comparison must satisfy for a list to have an order.
  pub record IsOrder (before : A → A → Bool) : Type ℓ where
    pub asymmetric : (x y : A) → before x y ≡ true → before y x ≡ false
    pub transitive : (x y z : A) → before y x ≡ false → before z y ≡ false → before z x ≡ false

  module _ (before : A → A → Bool) where
    unfoldable pub place_by : A → List A → List A
    place_by x [] = x ∷ []
    place_by x (y ∷ ys) = if before y x then y ∷ place_by x ys else x ∷ y ∷ ys

    unfoldable pub sort_by : List A → List A
    unfolding place_by
    sort_by [] = []
    sort_by (x ∷ xs) = place_by x (sort_by xs)

    -- Nothing stands behind `x` that must come before it.
    abbrev pub leads : A → List A → Bool
    leads x ys = all (λ y. not (before y x)) ys

    abbrev pub IsSorted : List A → Type 0
    IsSorted [] = Unit
    IsSorted (x ∷ xs) = (leads x xs ≡ true) × IsSorted xs

    all-place_by : (p : A → Bool) (x : A) (ys : List A) → all p (place_by x ys) ≡ (p x && all p ys)
    unfolding place_by
    all-place_by p x [] = refl
    all-place_by p x (y ∷ ys) = ground (arith, all-place_by p x ys)

    pub all-sort_by : (p : A → Bool) (xs : List A) → all p (sort_by xs) ≡ all p xs
    unfolding sort_by
    all-sort_by p [] = refl
    all-sort_by p (x ∷ xs) = ground (arith, all-place_by p x (sort_by xs), all-sort_by p xs)

    place_by-perm : (x : A) (ys : List A) → Perm (place_by x ys) (x ∷ ys)
    unfolding place_by
    place_by-perm x [] = Perm.rfl
    place_by-perm x (y ∷ ys) = elim (Bool-cases (before y x)) [
      | inl later ↦ rw later (Perm.trans (Perm.cons y (place_by-perm x ys)) (Perm.swap x y ys))
      | inr first ↦ rw first Perm.rfl
    ]

    pub sort_by-perm : (xs : List A) → Perm (sort_by xs) xs
    unfolding sort_by
    sort_by-perm [] = Perm.rfl
    sort_by-perm (x ∷ xs) =
        Perm.trans (place_by-perm x (sort_by xs)) (Perm.cons x (sort_by-perm xs))

    place_by-IsSorted :
        IsOrder before → (x : A) (ys : List A) → IsSorted ys → IsSorted (place_by x ys)
    unfolding place_by
    place_by-IsSorted order x [] h = (refl, tt)
    place_by-IsSorted order x (y ∷ ys) h = elim (Bool-cases (before y x)) [
      | inl later ↦ rw later (
        ground (arith, order.asymmetric y x, all-place_by (λ z. not (before z y)) x ys),
        place_by-IsSorted order x ys h.1,
      )
      | inr first ↦ rw first (
        ground (
          arith,
          all-weaken (λ z. not (before z y)) (λ z. not (before z x)) ys
              (λ z late. ground (arith, order.transitive x y z)),
        ),
        h,
      )
    ]

    pub sort_by-IsSorted : IsOrder before → (xs : List A) → IsSorted (sort_by xs)
    unfolding sort_by
    sort_by-IsSorted order [] = tt
    sort_by-IsSorted order (x ∷ xs) =
        place_by-IsSorted order x (sort_by xs) (sort_by-IsSorted order xs)

    take-IsSorted : (n : ℕ) (xs : List A) → IsSorted xs → IsSorted (take n xs)
    take-IsSorted zero xs h = tt
    take-IsSorted (suc n) [] h = tt
    take-IsSorted (suc n) (x ∷ xs) h =
        (all-take (λ y. not (before y x)) n xs h.0, take-IsSorted n xs h.1)

    -- None of the left out must come before one of the taken.
    abbrev pub none_better : List A → List A → Bool
    none_better taken left = all (λ x. leads x left) taken

    take-none_better :
        (n : ℕ) (xs : List A) → IsSorted xs → none_better (take n xs) (drop n xs) ≡ true
    take-none_better zero xs h = refl
    take-none_better (suc n) [] h = refl
    take-none_better (suc n) (x ∷ xs) h =
        ground (arith, all-drop (λ y. not (before y x)) n xs h.0, take-none_better n xs h.1)

    -- The first `n` of the sorted list: some `n` of the elements, or all where there are fewer, best
    -- first, such that none of those left out is better than one of them.
    pub record IsTop (n : ℕ) (found taken : List A) : Type ℓ where
      pub left : List A
      pub whole : Perm (taken ++ left) found
      pub count : length taken ≡ min n (length found)
      pub best : none_better taken left ≡ true
      pub best_first : IsSorted taken

    place_by-length : (x : A) (ys : List A) → length (place_by x ys) ≡ suc (length ys)
    unfolding place_by
    place_by-length x [] = refl
    place_by-length x (y ∷ ys) = ground (arith, place_by-length x ys)

    sort_by-length : (xs : List A) → length (sort_by xs) ≡ length xs
    unfolding sort_by
    sort_by-length [] = refl
    sort_by-length (x ∷ xs) = place_by-length x (sort_by xs) ∙ ap suc (sort_by-length xs)

    pub take-IsTop :
        IsOrder before → (n : ℕ) (found : List A) → IsTop n found (take n (sort_by found))
    take-IsTop order n found =
        let sorted = sort_by-IsSorted order found in
        record {
          left = drop n (sort_by found);
          whole = rw (take-append-drop n (sort_by found)) (sort_by-perm found);
          count = ground (arith, length-take n (sort_by found), sort_by-length found);
          best = take-none_better n (sort_by found) sorted;
          best_first = take-IsSorted n (sort_by found) sorted;
        }

-- A sort goes through a map.
place_by-map :
    {A B : Type 0} (before : B → B → Bool) (f : A → B) (x : A) (ys : List A)
    → place_by before (f x) (map f ys) ≡ map f (place_by (λ a b. before (f a) (f b)) x ys)
unfolding place_by
place_by-map before f x [] = refl
place_by-map before f x (y ∷ ys) = ground (arith, place_by-map before f x ys)

pub sort_by-map :
    {A B : Type 0} (before : B → B → Bool) (f : A → B) (xs : List A)
    → sort_by before (map f xs) ≡ map f (sort_by (λ a b. before (f a) (f b)) xs)
unfolding sort_by
sort_by-map before f [] = refl
sort_by-map before f (x ∷ xs) =
    ap (place_by before (f x)) (sort_by-map before f xs)
    ∙ place_by-map before f x (sort_by (λ a b. before (f a) (f b)) xs)

pub is_empty-place_by :
    {A : Type 0} (before : A → A → Bool) (x : A) (ys : List A)
    → is_empty (place_by before x ys) ≡ false
unfolding place_by
is_empty-place_by before x [] = refl
is_empty-place_by before x (y ∷ ys) = ground arith
