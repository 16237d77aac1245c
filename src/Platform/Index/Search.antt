-- ===== src/Platform/Index/Search.antt =====
-- The two searches of `InMemoryServingIndex`, with `_cosine` and `_terms`. A float is a value of
-- `F`; its operations are the fields of `Floats`, and `lower` is Python's `str.lower`.
pub mod Laws
pub mod Lexical
pub mod Dimension
use Prim.Native.Nat.{compare, Ordering}
use Prim.Native.Char.{Char, code}
use Prim.Native.String.{[] as []ˢ, ◌∷◌ as ◌∷ˢ◌}
use ai_chatbot.Base.{
  ℕ, String, Bool, true, false, ◌&&◌, ◌||◌, Option, none, some, List, [], ◌∷◌, Result, ok, raise,
  value_error, key_error, if◌then◌else◌, ◌==◌, string_eq, contains, leb, keep, length, take,
  distinct, is_empty, ◌>>=◌,
}
use ai_chatbot.Base.Dict.{Dict, lookup, keys}
use ai_chatbot.Base.Sorting.{sort_by}
use ai_chatbot.Platform.Models.{StoredChunk, IndexHit}
use ai_chatbot.Platform.Index.Memory.{Memory, active_chunks}

-- What the searches do with floats. `ratio m n` is `m / n` of two numbers of terms.
pub record Floats (F : Type 0) : Type 0 where
  pub zero_ : F
  pub add : F → F → F
  pub mul : F → F → F
  pub div : F → F → F
  pub sqrt : F → F
  pub is_zero : F → Bool
  pub less : F → F → Bool
  pub ratio : ℕ → ℕ → F

-- The class `[a-z0-9]`.
abbrev pub is_term_char : Char → Bool
is_term_char c = leb 97 (code c) && leb (code c) 122 || (leb 48 (code c) && leb (code c) 57)

-- A run that has ended, in front of the runs after it.
abbrev pub flush : String → List String → List String
flush run found = if run == "" then found else run ∷ found

-- The run at the start of the text, and the runs after it.
unfoldable pub runs : String → String × List String
runs []ˢ = ("", [])
runs (c ∷ˢ s) =
    let rest = runs s in if is_term_char c then (c ∷ˢ rest.0, rest.1) else ("", flush rest.0 rest.1)

module _ (lower : String → String) where
  unfoldable pub terms : String → List String
  unfolding runs
  terms text = flush (runs (lower text)).0 (runs (lower text)).1

  -- `query & _terms(text)`
  abbrev pub shared_terms : List String → String → List String
  shared_terms query text = keep (contains (terms text)) (distinct query)

module _ {F : Type 0} (O : Floats F) where
  -- `sum(a * b for a, b in zip(left, right, strict=True))`, on top of `sum`.
  unfoldable pub dot : F → List F → List F → Result F
  dot sum [] [] = ok sum
  dot sum (a ∷ left) (b ∷ right) = dot (O.add sum (O.mul a b)) left right
  dot sum [] (b ∷ right) = raise value_error
  dot sum (a ∷ left) [] = raise value_error

  -- `sum(a * a for a in left)`, on top of `sum`.
  unfoldable pub squares : F → List F → F
  squares sum [] = sum
  squares sum (a ∷ left) = squares (O.add sum (O.mul a a)) left

  abbrev pub norm : List F → List F → F
  norm left right = O.mul (O.sqrt (squares O.zero_ left)) (O.sqrt (squares O.zero_ right))

  unfoldable pub cosine : List F → List F → Result F
  unfolding dot squares
  cosine left right = elim (dot O.zero_ left right) [
    | raise e ↦ raise e
    | ok sum ↦ ok (if O.is_zero (norm left right) then O.zero_ else O.div sum (norm left right))
  ]

  -- `sorted(scored, key=lambda hit: hit.score, reverse=True)`
  abbrev pub better : IndexHit F → IndexHit F → Bool
  better x y = O.less y.score x.score

  -- A hit in front of the hits of the later chunks; the first raise wins.
  abbrev pub add_hit : Result (IndexHit F) → Result (List (IndexHit F)) → Result (List (IndexHit F))
  add_hit (raise e) rest = raise e
  add_hit (ok hit) (raise e) = raise e
  add_hit (ok hit) (ok hits) = ok (hit ∷ hits)

  -- The hit of one chunk in `search_dense`.
  unfoldable pub dense_hit : List F → Memory F → String → Result (IndexHit F)
  unfolding lookup cosine
  dense_hit vector s c = elim (lookup c s.chunks) [
    | none ↦ raise key_error
    | some stored ↦ elim (lookup c s.embeddings) [
      | none ↦ raise key_error
      | some embedding ↦ elim (cosine vector embedding) [
        | raise e ↦ raise e
        | ok score ↦ ok (record { chunk = stored; score = score })
      ]
    ]
  ]

  unfoldable pub dense_hits : List F → Memory F → List String → Result (List (IndexHit F))
  unfolding dense_hit
  dense_hits vector s [] = ok []
  dense_hits vector s (c ∷ cs) = add_hit (dense_hit vector s c) (dense_hits vector s cs)

  -- `k` is not negative.
  unfoldable pub search_dense : List F → ℕ → ℕ → Memory F → Result (List (IndexHit F))
  unfolding active_chunks dense_hits sort_by
  search_dense vector v k s = do
    active ← active_chunks v s
    hits ← dense_hits vector s (keys active)
    ok (take k (sort_by better hits))

  module _ (lower : String → String) where
    abbrev pub overlap : List String → StoredChunk F → F
    overlap query stored =
        O.ratio (length (shared_terms lower query stored.chunk.text)) (length (distinct query))

    abbrev pub lexical_hit : List String → StoredChunk F → IndexHit F
    lexical_hit query stored = record { chunk = stored; score = overlap query stored }

    unfoldable pub lexical_hits : List String → Memory F → List String → Result (List (IndexHit F))
    unfolding lookup terms distinct
    lexical_hits query s [] = ok []
    lexical_hits query s (c ∷ cs) =
        let rest = lexical_hits query s cs in
        elim (lookup c s.chunks) [
          | none ↦ raise key_error
          | some stored ↦
              if O.less O.zero_ (overlap query stored)
              then add_hit (ok (lexical_hit query stored)) rest
              else rest
        ]

    unfoldable pub search_lexical : String → ℕ → ℕ → Memory F → Result (List (IndexHit F))
    unfolding active_chunks lexical_hits sort_by terms
    search_lexical query_text v k s =
        let query = terms lower query_text in
        if is_empty query
        then ok []
        else (active_chunks v s >>= λ active.
            lexical_hits query s (keys active) >>= λ hits. ok (take k (sort_by better hits)))
