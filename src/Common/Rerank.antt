-- ===== src/Common/Rerank.antt =====
-- `TeiReranker.rerank` of libs/common/src/chatbot_common/embeddings.py. Parameter: the response of
-- the server, a list of items, each with a whole number as its index.
pub mod Laws
use mathlib.Core.Path.{ap₂}
use ai_chatbot.Base.{
  ℕ, zero, suc, ◌<◌, ◌-◌, String, Bool, true, false, Option, none, some, List, [], ◌∷◌, Result, ok,
  raise, index_error, ◌>>=◌, if◌then◌else◌, ◌==◌, nat_eq, ltb, length, all, ◌≡◌, refl, ap, ◌∙◌,
  arith, is_some, from_some, Bool-cases, inl, inr,
}

pub data ℤ : Type 0 where
  pos : ℕ → ℤ
  negsuc : ℕ → ℤ

-- The place in a list of `n` values that Python's index names: a negative one counts from the end.
abbrev pub position : ℕ → ℤ → Option ℕ
position n (pos i) = if ltb i n then some i else none
position n (negsuc k) = if ltb k n then some (n - suc k) else none

pub record RankedItem (F : Type 0) : Type 0 where
  pub index : ℤ
  pub score : F

module _ {F : Type 0} where
  -- `[value] * n`
  unfoldable pub replicate : ℕ → F → List F
  replicate zero value = []
  replicate (suc n) value = value ∷ replicate n value

  -- A score in front of the others.
  abbrev pub behind : F → Result (List F) → Result (List F)
  behind x (raise e) = raise e
  behind x (ok xs) = ok (x ∷ xs)

  -- The value in the place `n`.
  unfoldable pub set_nth : ℕ → F → List F → Result (List F)
  set_nth n value [] = raise index_error
  set_nth zero value (x ∷ xs) = ok (value ∷ xs)
  set_nth (suc n) value (x ∷ xs) = behind x (set_nth n value xs)

  -- `scores[index] = value`
  unfoldable pub set_at : ℤ → F → List F → Result (List F)
  unfolding set_nth
  set_at index value xs = elim (position (length xs) index) [
    | none ↦ raise index_error
    | some i ↦ set_nth i value xs
  ]

  unfoldable pub place_scores : List (RankedItem F) → List F → Result (List F)
  unfolding set_at
  place_scores [] scores = ok scores
  place_scores (item ∷ items) scores =
      set_at item.index item.score scores >>= λ placed. place_scores items placed

  unfoldable pub rerank :
      F
      → (String → List String → Result (List (RankedItem F)))
      → String
      → List String
      → Result (List F)
  unfolding place_scores replicate
  rerank zero_score post query texts =
      post query texts >>= λ items. place_scores items (replicate (length texts) zero_score)
