-- ===== src/Platform/Index/Search/Lexical.antt =====
-- The lexical search in memory returns the best of the visible chunks that share a term with the query.
use ai_chatbot.Base.{
  ℕ, zero, suc, String, Bool, true, false, Option, none, some, List, [], ◌∷◌, ◌≡◌, refl, ◌∙◌, sym,
  arith, ok, nat_eq, string_eq, contains, length, take, from_some, ltb, keep, distinct, is_empty,
  Bool-cases, ◌⊎◌, inl, inr,
}
use ai_chatbot.Base.Dict.{Dict, lookup, has, keys}
use ai_chatbot.Base.Sorting.{IsOrder, IsTop, sort_by, take-IsTop}
use ai_chatbot.Platform.Models.{StoredChunk, IndexHit}
use ai_chatbot.Platform.Index.Memory.{Memory, active_chunks}
use ai_chatbot.Platform.Index.Memory.Active.{IsValid, memory_active_lem}
use ai_chatbot.Platform.Index.Search.{
  Floats, better, terms, overlap, lexical_hit, lexical_hits, search_lexical, shared_terms,
}
use ai_chatbot.Platform.Index.Search.Laws.{better-IsOrder, active_stored}

is_empty_of_contains : (x : String) (xs : List String) → contains xs x ≡ true → is_empty xs ≡ false
is_empty_of_contains x [] h = sym h
is_empty_of_contains x (y ∷ xs) h = refl

length-distinct :
    (xs : List String) → is_empty xs ≡ false → (n : ℕ) × (length (distinct xs) ≡ suc n)
unfolding distinct
length-distinct [] h = cc
length-distinct (x ∷ xs) h = elim (Bool-cases (contains xs x)) [
  | inl again ↦ rw (distinct, again) (length-distinct xs (is_empty_of_contains x xs again))
  | inr fresh ↦ (length (distinct xs), rw (distinct, fresh) refl)
]

list_cases : {A : Type 0} (xs : List A) → (xs ≡ []) ⊎ (is_empty xs ≡ false)
list_cases [] = inl refl
list_cases (x ∷ xs) = inr refl

IsTop-of_none :
    {A : Type 0} (before : A → A → Bool) → IsOrder before → (k : ℕ) → IsTop before k [] []
unfolding sort_by
IsTop-of_none before order zero = take-IsTop before order zero []
IsTop-of_none before order (suc k) = take-IsTop before order (suc k) []

module _ {F : Type 0} where
  module _ (O : Floats F) where
    module _ (lower : String → String) where
      -- Some term of the query stands in the text of the chunk.
      abbrev pub shares_term : List String → Option (StoredChunk F) → Bool
      shares_term query none = false
      shares_term query (some stored) = ltb 0 (length (shared_terms lower query stored.chunk.text))

      abbrev pub LexicalAnswers : List String → Memory F → List String → List (IndexHit F) → Type 0
      LexicalAnswers query s [] [] = Unit
      LexicalAnswers query s (c ∷ cs) (hit ∷ hits) =
          ((stored : StoredChunk F) × (lookup c s.chunks ≡ some stored)
            × (hit ≡ lexical_hit O lower query stored))
          × LexicalAnswers query s cs hits
      LexicalAnswers query s [] (hit ∷ hits) = ⊥
      LexicalAnswers query s (c ∷ cs) [] = ⊥

      -- The chunks among `cs` whose text shares a term with the query.
      abbrev pub sharing : List String → Memory F → List String → List String
      sharing query s cs = keep (λ c. shares_term query (lookup c s.chunks)) cs

      lexical_hits-ok :
          (query : List String) (s : Memory F) (cs : List String)
          → ((m : ℕ) → O.less O.zero_ (O.ratio m (length (distinct query))) ≡ ltb 0 m)
          → ((c : String) → contains cs c ≡ true → has c s.chunks ≡ true)
          → (found : List (IndexHit F)) × (lexical_hits O lower query s cs ≡ ok found)
            × LexicalAnswers query s (sharing query s cs) found
      unfolding lexical_hits
      lexical_hits-ok query s [] positive stored = ([], refl, tt)
      lexical_hits-ok query s (c ∷ cs) positive stored =
          let (found, es, rest) =
            lexical_hits-ok query s cs positive (λ k h. stored k (ground arith)) in
          from_some (lookup c s.chunks) (stored c (ground arith)) (λ chunk at.
            let sign = positive (length (shared_terms lower query chunk.chunk.text)) in
            elim (Bool-cases (O.less O.zero_ (overlap O lower query chunk))) [
              | inl shared ↦ (
                lexical_hit O lower query chunk ∷ found,
                rw (lexical_hits, at, es, shared) refl,
                rw (at, sym sign ∙ shared) ((chunk, at, refl), rest),
              )
              | inr apart ↦
                  (found, rw (lexical_hits, at, es, apart) refl, rw (at, sym sign ∙ apart) rest)
            ])

      sharing-none : (s : Memory F) (cs : List String) → sharing [] s cs ≡ []
      unfolding distinct
      sharing-none s [] = refl
      sharing-none s (c ∷ cs) = ground (arith, sharing-none s cs)

      -- A query without a term has no hit.
      search_lexical-empty :
          (s : Memory F) (text : String) (v k : ℕ)
          → is_empty (terms lower text) ≡ true
          → search_lexical O lower text v k s ≡ ok []
      unfolding search_lexical
      search_lexical-empty s text v k h = rw h refl

      search_lexical-some :
          (s : Memory F) (text : String) (v k : ℕ) (d : Dict String) (found : List (IndexHit F))
          → is_empty (terms lower text) ≡ false
          → active_chunks v s ≡ ok d
          → lexical_hits O lower (terms lower text) s (keys d) ≡ ok found
          → search_lexical O lower text v k s ≡ ok (take k (sort_by (better O) found))
      unfolding search_lexical
      search_lexical-some s text v k d found h active es = rw (h, active, es) refl

      -- On a valid index, with floats that are ordered and a ratio that is positive exactly if its
      -- first number is, the lexical search returns. The found hits are one for each active chunk
      -- of the version that shares a term with the query, with the share of the terms of the query
      -- that stand in its text, and the result is the best k of them, best first. A query without a
      -- term has none.
      pub search_lexical_lem :
          (s : Memory F) (text : String) (v k : ℕ)
          → IsOrder O.less
          → ((m n : ℕ) → O.less O.zero_ (O.ratio m (suc n)) ≡ ltb 0 m)
          → IsValid s
          → (d : Dict String) × (found : List (IndexHit F)) × (hits : List (IndexHit F))
            × (active_chunks v s ≡ ok d)
            × LexicalAnswers (terms lower text) s (sharing (terms lower text) s (keys d)) found
            × (search_lexical O lower text v k s ≡ ok hits)
            × IsTop (better O) k found hits
      search_lexical_lem s text v k order positive valid =
          let (d, active, once, same) = memory_active_lem s valid v in
          let query = terms lower text in
          elim (list_cases query) [
            | inl none_ ↦ (
              d,
              [],
              [],
              active,
              rw (none_, sharing-none s (keys d)) tt,
              search_lexical-empty s text v k (rw none_ refl),
              IsTop-of_none (better O) (better-IsOrder O order) k,
            )
            | inr some_ ↦
                let (n, size) = length-distinct query some_ in
                let (found, es, answers) =
                  lexical_hits-ok query s (keys d) (λ m. rw size (positive m n))
                    (active_stored s v d same) in
                (
                  d,
                  found,
                  take k (sort_by (better O) found),
                  active,
                  answers,
                  search_lexical-some s text v k d found some_ active es,
                  take-IsTop (better O) (better-IsOrder O order) k found,
                )
          ]
