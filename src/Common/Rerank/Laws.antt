-- ===== src/Common/Rerank/Laws.antt =====
-- Which scores a reranker returns.
use mathlib.Core.Path.{ap₂}
use ai_chatbot.Base.{
  ℕ, zero, suc, ◌<◌, String, Bool, true, false, Option, none, some, List, [], ◌∷◌, Result, ok,
  raise, index_error, if◌then◌else◌, ◌==◌, nat_eq, ltb, length, all, ◌≡◌, refl, ap, ◌∙◌, arith,
  is_some, from_some, Bool-cases, inl, inr,
}
use ai_chatbot.Common.Rerank.{
  ℤ, pos, negsuc, position, RankedItem, replicate, set_nth, set_at, place_scores, rerank,
}

-- The index names the place `i`.
abbrev pub names_place : ℕ → ℤ → ℕ → Bool
names_place n index i = elim (position n index) [ none ↦ false | some j ↦ i == j ]

position-lt : (n : ℕ) (index : ℤ) (i : ℕ) → position n index ≡ some i → i < n
position-lt n (pos j) i h = ground arith
position-lt n (negsuc k) i h = ground arith

module _ {F : Type 0} where
  abbrev pub get_elem? : List F → ℕ → Option F
  get_elem? [] n = none
  get_elem? (x ∷ xs) zero = some x
  get_elem? (x ∷ xs) (suc n) = get_elem? xs n

  some_injective : {a b : F} → some a ≡ some b → a ≡ b
  some_injective h = cc

  within : {a : F} (i n : ℕ) → i < n → (if ltb i n then some a else none) ≡ some a
  within i n h = ground arith

  -- The score that the last item with the index gives, or the one that was there.
  abbrev pub last_score : ℕ → Option F → ℕ → List (RankedItem F) → Option F
  last_score n old i [] = old
  last_score n old i (item ∷ items) =
      last_score n (if names_place n item.index i then some item.score else old) i items

  abbrev pub in_range : ℕ → List (RankedItem F) → Bool
  in_range n items = all (λ item. is_some (position n item.index)) items

  get_elem?-first :
      (x y : F) (xs : List F) (i : ℕ)
      → get_elem? (x ∷ xs) i ≡ (if i == 0 then some x else get_elem? (y ∷ xs) i)
  get_elem?-first x y xs zero = ground arith
  get_elem?-first x y xs (suc i) = ground arith

  get_elem?-later :
      (n : ℕ) (x y : F) (xs ys : List F)
      → ((i : ℕ) → get_elem? ys i ≡ (if i == n then some x else get_elem? xs i))
      → (i : ℕ) → get_elem? (y ∷ ys) i ≡ (if i == suc n then some x else get_elem? (y ∷ xs) i)
  get_elem?-later n x y xs ys same zero = ground arith
  get_elem?-later n x y xs ys same (suc i) = ground (arith, same i)

  set_nth-ok :
      (n : ℕ) (x : F) (xs : List F)
      → n < length xs
      → (ys : List F) × (set_nth n x xs ≡ ok ys)
        × (length ys ≡ length xs)
        × ((i : ℕ) → get_elem? ys i ≡ (if i == n then some x else get_elem? xs i))
  unfolding set_nth
  set_nth-ok n x [] h = absurd (omega arith)
  set_nth-ok zero x (y ∷ xs) h = (x ∷ xs, refl, refl, get_elem?-first x y xs)
  set_nth-ok (suc n) x (y ∷ xs) h =
      let (ys, e, size, same) = set_nth-ok n x xs (omega arith) in
      (y ∷ ys, rw (set_nth, e) refl, ap suc size, get_elem?-later n x y xs ys same)

  set_at-ok :
      (index : ℤ) (x : F) (xs : List F)
      → is_some (position (length xs) index) ≡ true
      → (ys : List F) × (set_at index x xs ≡ ok ys)
        × (length ys ≡ length xs)
        × ((i : ℕ)
            → get_elem? ys i ≡ (if names_place (length xs) index i then some x else get_elem? xs i))
  unfolding set_at
  set_at-ok index x xs h = from_some (position (length xs) index) h (λ n e.
      let (ys, done, size, same) = set_nth-ok n x xs (position-lt (length xs) index n e) in
      (ys, rw (set_at, e) done, size, λ i. rw (names_place, e) (same i)))

  set_at-out :
      (index : ℤ) (x : F) (xs : List F)
      → is_some (position (length xs) index) ≡ false
      → set_at index x xs ≡ raise index_error
  unfolding set_at
  set_at-out index x xs h = ground arith

  place_scores-ok :
      (items : List (RankedItem F)) (xs : List F)
      → in_range (length xs) items ≡ true
      → (ys : List F) × (place_scores items xs ≡ ok ys)
        × (length ys ≡ length xs)
        × ((i : ℕ) → get_elem? ys i ≡ last_score (length xs) (get_elem? xs i) i items)
  unfolding place_scores
  place_scores-ok [] xs h = (xs, refl, refl, λ i. refl)
  place_scores-ok (item ∷ items) xs h =
      let (ys, e, size, same) = set_at-ok item.index item.score xs (ground arith) in
      let (zs, placed, count, lasts) = place_scores-ok items ys (rw size (ground arith)) in
      (
        zs,
        rw (place_scores, e, placed) refl,
        count ∙ size,
        λ i.
            lasts i
            ∙ ap (λ m. last_score m (get_elem? ys i) i items) size
            ∙ ap (λ o. last_score (length xs) o i items) (same i),
      )

  place_scores-out :
      (items : List (RankedItem F)) (xs : List F)
      → in_range (length xs) items ≡ false
      → place_scores items xs ≡ raise index_error
  unfolding place_scores
  place_scores-out [] xs h = cc
  place_scores-out (item ∷ items) xs h =
      elim (Bool-cases (is_some (position (length xs) item.index))) [
        | inl below ↦
            let (ys, e, size, _) = set_at-ok item.index item.score xs (ground arith) in
            rw (place_scores, e) (place_scores-out items ys (rw size (ground arith)))
        | inr above ↦ rw (place_scores, set_at-out item.index item.score xs above) refl
      ]

  length-replicate : (n : ℕ) (x : F) → length (replicate n x) ≡ n
  unfolding replicate
  length-replicate zero x = refl
  length-replicate (suc n) x = ap suc (length-replicate n x)

  get_elem?-replicate :
      (n : ℕ) (x : F) (i : ℕ) → get_elem? (replicate n x) i ≡ (if ltb i n then some x else none)
  unfolding replicate
  get_elem?-replicate zero x i = ground arith
  get_elem?-replicate (suc n) x zero = ground arith
  get_elem?-replicate (suc n) x (suc i) = ground (arith, get_elem?-replicate n x i)

  -- The score in the place `i` of `n`, by the last item that names it.
  abbrev pub score_of : ℕ → F → List (RankedItem F) → ℕ → F
  score_of n old [] i = old
  score_of n old (item ∷ items) i =
      score_of n (if names_place n item.index i then item.score else old) items i

  -- `f i`, `f (i + 1)`, … , `n` of them.
  abbrev pub tabulate : ℕ → (ℕ → F) → List F
  tabulate zero f = []
  tabulate (suc n) f = f 0 ∷ tabulate n (λ i. f (suc i))

  last_score-some :
      (n : ℕ) (x : F) (i : ℕ) (items : List (RankedItem F))
      → last_score n (some x) i items ≡ some (score_of n x items i)
  last_score-some n x i [] = refl
  last_score-some n x i (item ∷ items) = elim (Bool-cases (names_place n item.index i)) [
    | inl same ↦ rw same (last_score-some n item.score i items)
    | inr other ↦ rw other (last_score-some n x i items)
  ]

  tabulate-ext :
      (n : ℕ) (f : ℕ → F) (xs : List F)
      → length xs ≡ n
      → ((i : ℕ) → i < n → get_elem? xs i ≡ some (f i))
      → xs ≡ tabulate n f
  tabulate-ext zero f [] h same = refl
  tabulate-ext zero f (x ∷ xs) h same = absurd (omega arith)
  tabulate-ext (suc n) f [] h same = absurd (omega arith)
  tabulate-ext (suc n) f (x ∷ xs) h same =
      ap₂ (λ y ys. y ∷ ys) (some_injective (same 0 (omega arith)))
        (tabulate-ext n (λ i. f (suc i)) xs (omega arith) (λ i below. same (suc i) (omega arith)))

  place_scores-tabulate :
      (items : List (RankedItem F)) (n : ℕ) (x : F)
      → in_range n items ≡ true
      → place_scores items (replicate n x) ≡ ok (tabulate n (score_of n x items))
  place_scores-tabulate items n x inside =
      let size = length-replicate n x in
      let (scores, e, count, lasts) = place_scores-ok items (replicate n x) (rw size inside) in
      let same = tabulate-ext n (score_of n x items) scores (count ∙ size) (λ i below.
        lasts i
        ∙ ap (λ m. last_score m (get_elem? (replicate n x) i) i items) size
        ∙ ap (λ o. last_score n o i items) (get_elem?-replicate n x i ∙ within i n below)
        ∙ last_score-some n x i items) in
      e ∙ ap ok same

  -- When the server has answered with items whose indexes are whole numbers, the reranker returns one
  -- score for each text in their order, the one of the last item whose index names the text or else
  -- zero, if every index names a text, and raises an index error otherwise. Of `n` texts an index from
  -- 0 to `n - 1` names that text, and an index from `-n` to -1 the text at that place from the end.
  pub rerank_lem :
      (zero_score : F) (post : String → List String → Result (List (RankedItem F))) (query : String)
      (texts : List String) (items : List (RankedItem F))
      → post query texts ≡ ok items
      → rerank zero_score post query texts ≡ (
          if in_range (length texts) items
          then ok (tabulate (length texts) (score_of (length texts) zero_score items))
          else raise index_error)
  unfolding rerank
  rerank_lem zero_score post query texts items posted =
      let start = replicate (length texts) zero_score in
      let size = length-replicate (length texts) zero_score in
      elim (Bool-cases (in_range (length texts) items)) [
        | inl inside ↦
            rw (posted, inside) (place_scores-tabulate items (length texts) zero_score inside)
        | inr outside ↦ rw (posted, outside) (place_scores-out items start (rw size outside))
      ]
