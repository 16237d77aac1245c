-- ===== src/Platform/Index/Search/Laws.antt =====
-- The searches in memory return the best hits among the visible chunks.
use ai_chatbot.Base.{
  ℕ, String, Bool, true, false, Option, none, some, List, [], ◌∷◌, ◌≡◌, refl, arith, ok,
  if◌then◌else◌, ◌==◌, nat_eq, string_eq, contains, length, take, from_some,
}
use ai_chatbot.Base.Dict.{Dict, lookup, has, keys, contains-keys}
use ai_chatbot.Base.Sorting.{IsOrder, IsTop, sort_by, take-IsTop}
use ai_chatbot.Platform.Models.{IndexHit}
use ai_chatbot.Platform.Index.Intervals.{is_visible}
use ai_chatbot.Platform.Index.Port.{doc_of}
use ai_chatbot.Platform.Index.Memory.{Memory, active_chunks, intervals_of}
use ai_chatbot.Platform.Index.Memory.Active.{IsValid, memory_active_lem}
use ai_chatbot.Platform.Index.Search.{
  Floats, dot, norm, cosine, better, dense_hit, dense_hits, search_dense,
}

abbrev pub has_vector : {F : Type 0} → ℕ → Option (List F) → Bool
has_vector n none = false
has_vector n (some embedding) = length embedding == n

-- Every stored chunk has an embedding with `n` numbers.
abbrev pub HasEmbeddings : {F : Type 0} → ℕ → Memory F → Type 0
HasEmbeddings n s =
    (c : String) → has c s.chunks ≡ true → has_vector n (lookup c s.embeddings) ≡ true

module _ {F : Type 0} where
  -- Every active chunk is stored.
  pub active_stored :
      (s : Memory F) (v : ℕ) (d : Dict String)
      → ((c : String)
          → lookup c d
            ≡ (if is_visible (intervals_of s c) v then doc_of (lookup c s.chunks) else none))
      → (c : String) → contains (keys d) c ≡ true
      → has c s.chunks ≡ true
  active_stored s v d same c h = ground (arith, contains-keys c d, same c)

  module _ (O : Floats F) where
    pub better-IsOrder : IsOrder O.less → IsOrder (better O)
    better-IsOrder order = record {
      asymmetric = λ x y. order.asymmetric y.score x.score;
      transitive = λ x y z near far. order.transitive z.score y.score x.score far near;
    }

    dot-ok :
        (sum : F) (left right : List F)
        → length right ≡ length left
        → (r : F) × (dot O sum left right ≡ ok r)
    unfolding dot
    dot-ok sum [] [] h = (sum, refl)
    dot-ok sum (a ∷ left) (b ∷ right) h = dot-ok (O.add sum (O.mul a b)) left right (omega arith)
    dot-ok sum [] (b ∷ right) h = absurd (omega arith)
    dot-ok sum (a ∷ left) [] h = absurd (omega arith)

    cosine-ok :
        (left right : List F) → length right ≡ length left → (r : F) × (cosine O left right ≡ ok r)
    unfolding cosine
    cosine-ok left right h =
        let (sum, e) = dot-ok O.zero_ left right h in
        (
          if O.is_zero (norm O left right) then O.zero_ else O.div sum (norm O left right),
          rw (cosine, e) refl,
        )

    -- The hit of a chunk: its stored content, and the cosine of its embedding.
    abbrev pub DenseAnswers : List F → Memory F → List String → List (IndexHit F) → Type 0
    DenseAnswers vector s [] [] = Unit
    DenseAnswers vector s (c ∷ cs) (hit ∷ hits) =
        (lookup c s.chunks ≡ some hit.chunk)
        × ((e : List F) × (lookup c s.embeddings ≡ some e) × (cosine O vector e ≡ ok hit.score))
        × DenseAnswers vector s cs hits
    DenseAnswers vector s [] (hit ∷ hits) = ⊥
    DenseAnswers vector s (c ∷ cs) [] = ⊥

    has_vector-some :
        (n : ℕ) (o : Option (List F))
        → has_vector n o ≡ true
        → (e : List F) × (o ≡ some e) × (length e ≡ n)
    has_vector-some n none h = cc
    has_vector-some n (some e) h = (e, refl, ground arith)

    dense_hit-ok :
        (vector : List F) (s : Memory F) (c : String)
        → has c s.chunks ≡ true
        → has_vector (length vector) (lookup c s.embeddings) ≡ true
        → (hit : IndexHit F) × (dense_hit O vector s c ≡ ok hit)
          × (lookup c s.chunks ≡ some hit.chunk)
          × ((e : List F) × (lookup c s.embeddings ≡ some e) × (cosine O vector e ≡ ok hit.score))
    unfolding dense_hit
    dense_hit-ok vector s c stored vectors =
        let (e, at, size) = has_vector-some (length vector) (lookup c s.embeddings) vectors in
        let (score, worth) = cosine-ok vector e size in
        from_some (lookup c s.chunks) stored (λ chunk found. (
          record { chunk = chunk; score = score },
          rw (dense_hit, found, at, worth) refl,
          found,
          (e, at, worth),
        ))

    dense_hits-ok :
        (vector : List F) (s : Memory F) (cs : List String)
        → HasEmbeddings (length vector) s
        → ((c : String) → contains cs c ≡ true → has c s.chunks ≡ true)
        → (found : List (IndexHit F)) × (dense_hits O vector s cs ≡ ok found)
          × DenseAnswers vector s cs found
    unfolding dense_hits
    dense_hits-ok vector s [] sized stored = ([], refl, tt)
    dense_hits-ok vector s (c ∷ cs) sized stored =
        let here = stored c (ground arith) in
        let (hit, e, chunk, score) = dense_hit-ok vector s c here (sized c here) in
        let (found, es, rest) = dense_hits-ok vector s cs sized (λ k h. stored k (ground arith)) in
        (hit ∷ found, rw (e, es) refl, (chunk, score, rest))

    -- On a valid index whose embeddings have the length of the query vector, and with floats that
    -- are ordered, the dense search returns. The found hits are one for each active chunk of the
    -- version, with the chunk and the cosine of its embedding, and the result is the best k of
    -- them, best first: k of them, or all where there are fewer, and none that is left out is
    -- better than one that is returned.
    pub search_dense_lem :
        (s : Memory F) (vector : List F) (v k : ℕ)
        → IsOrder O.less
        → IsValid s
        → HasEmbeddings (length vector) s
        → (d : Dict String) × (found : List (IndexHit F)) × (hits : List (IndexHit F))
          × (active_chunks v s ≡ ok d)
          × DenseAnswers vector s (keys d) found
          × (search_dense O vector v k s ≡ ok hits)
          × IsTop (better O) k found hits
    unfolding search_dense
    search_dense_lem s vector v k order valid sized =
        let (d, active, once, same) = memory_active_lem s valid v in
        let (found, es, answers) =
          dense_hits-ok vector s (keys d) sized (active_stored s v d same) in
        (
          d,
          found,
          take k (sort_by (better O) found),
          active,
          answers,
          rw (active, es) refl,
          take-IsTop (better O) (better-IsOrder order) k found,
        )
