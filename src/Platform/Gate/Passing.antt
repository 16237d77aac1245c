-- ===== src/Platform/Gate/Passing.antt =====
-- When the default checks pass, said of the records that they look at.
use ai_chatbot.Base.{
  ℕ, String, Bool, true, false, ◌&&◌, ◌||◌, not, none, some, List, [], ◌∷◌, ◌++◌, ◌≡◌, refl, arith,
  ◌==◌, string_eq, nat_eq, contains, minus, all, length, Option-cases, inl, inr,
}
use ai_chatbot.Contracts.Enums.{is_external_exercise}
use ai_chatbot.Contracts.KnowledgeBase.{Chunk, ChunkSet, CleanPage, DocumentVersion}
use ai_chatbot.Platform.Gate.Checks.{
  Runtime, GateContext, is_empty, is_given, concat, range_from, is_content_addressed,
  chunk_id_problem, pages_seen, page_count_of, coverage_problem, ocr_problem, pii_problem,
  vector_problem, model_problem, licence_problem, check_chunk_ids, check_page_coverage,
  check_ocr_confidence, check_pii, check_embeddings, check_licences,
}

is_empty-append : {A : Type 0} (xs ys : List A) → is_empty (xs ++ ys) ≡ (is_empty xs && is_empty ys)
is_empty-append [] ys = refl
is_empty-append (x ∷ xs) ys = refl

is_empty-concat :
    {A B : Type 0} (f : A → List B) (p : A → Bool) (xs : List A)
    → ((x : A) → is_empty (f x) ≡ p x)
    → is_empty (concat f xs) ≡ all p xs
is_empty-concat f p [] h = refl
is_empty-concat f p (x ∷ xs) h =
    ground (arith, is_empty-append (f x) (concat f xs), h x, is_empty-concat f p xs h)

is_empty-minus : (xs seen : List ℕ) → is_empty (minus xs seen) ≡ all (contains seen) xs
unfolding minus
is_empty-minus [] seen = refl
is_empty-minus (x ∷ xs) seen = ground (arith, is_empty-minus xs seen)

module _ {F : Type 0} (P : Runtime F) where
  -- The document is known, has a page count, and each of its pages was cleaned.
  abbrev pub is_covered : GateContext F → ChunkSet F → Bool
  is_covered ctx set = elim (page_count_of P ctx set.doc_version) [
    | none ↦ false
    | some n ↦ all (contains (pages_seen P ctx set.doc_version)) (range_from 1 n)
  ]

  -- The page was not read by OCR, or well enough.
  abbrev pub is_readable : F → CleanPage F → Bool
  is_readable minimum page = elim page.flags.min_ocr_conf [
    | none ↦ true
    | some conf ↦ not (P.is_below conf minimum)
  ]

  -- The vector of a chunk has the dimension, finite values, and is not zero.
  abbrev pub is_embedded : ℕ → Chunk F → Bool
  is_embedded dim chunk = elim chunk.embedding [
    | none ↦ false
    | some vector ↦
        (length vector == dim) && (all P.is_finite vector && not (P.is_zero_vector vector))
  ]

  abbrev pub is_licensed : String × DocumentVersion → Bool
  is_licensed item = not (is_external_exercise item.1.source_type) || is_given item.1.licence

  covered_lem :
      (ctx : GateContext F) (set : ChunkSet F)
      → is_empty (coverage_problem P ctx set) ≡ is_covered ctx set
  covered_lem ctx set = elim (Option-cases (page_count_of P ctx set.doc_version)) [
    | inl e ↦ ground arith
    | inr (n, e) ↦
        ground (arith, is_empty-minus (range_from 1 n) (pages_seen P ctx set.doc_version))
  ]

  readable_lem :
      (minimum : F) (page : CleanPage F)
      → is_empty (ocr_problem P minimum page) ≡ is_readable minimum page
  readable_lem minimum page = ground arith

  embedded_lem :
      (dim : ℕ) (chunk : Chunk F) → is_empty (vector_problem P dim chunk) ≡ is_embedded dim chunk
  embedded_lem dim chunk = ground arith

  -- The checks pass exactly if: every chunk set's document is known and has a cleaned page for each
  -- of its pages; no page has an OCR confidence below the minimum; no page has personal data left;
  -- every chunk set uses the version's model and its chunks have usable vectors; every external
  -- exercise has a licence; every chunk id is made from the chunk's content, in the set's document.
  pub passed_lem :
      (minimum : F) (dim : ℕ) (ctx : GateContext F)
      → ((check_page_coverage P ctx).passed ≡ all (is_covered ctx) ctx.chunk_sets)
        × ((check_ocr_confidence P minimum ctx).passed ≡ all (is_readable minimum) ctx.clean_pages)
        × ((check_pii P ctx).passed ≡ all (λ page. page.flags.pii_remaining == 0) ctx.clean_pages)
        × ((check_embeddings P dim ctx).passed
            ≡ all
                (λ set.
                  (set.embedding_model == ctx.manifest.embedding_model)
                  && all (is_embedded dim) set.chunks)
                ctx.chunk_sets)
        × ((check_licences P ctx).passed ≡ all is_licensed ctx.documents)
        × ((check_chunk_ids P ctx).passed
            ≡ all (λ set. all (is_content_addressed P set) set.chunks) ctx.chunk_sets)
  unfolding check_page_coverage check_ocr_confidence check_pii check_embeddings check_licences
      check_chunk_ids
  passed_lem minimum dim ctx = (
    is_empty-concat (coverage_problem P ctx) (is_covered ctx) ctx.chunk_sets (covered_lem ctx),
    is_empty-concat (ocr_problem P minimum) (is_readable minimum) ctx.clean_pages
        (readable_lem minimum),
    is_empty-concat (pii_problem P) _ ctx.clean_pages (λ page. ground arith),
    is_empty-concat _ _ ctx.chunk_sets (λ set. ground (
      arith,
      is_empty-append (model_problem P ctx set) (concat (vector_problem P dim) set.chunks),
      is_empty-concat (vector_problem P dim) (is_embedded dim) set.chunks (embedded_lem dim),
    )),
    is_empty-concat (licence_problem P) is_licensed ctx.documents (λ item. ground arith),
    is_empty-concat _ _ ctx.chunk_sets (λ set.
        is_empty-concat (chunk_id_problem P set) (is_content_addressed P set) set.chunks
          (λ chunk. ground arith)),
  )
