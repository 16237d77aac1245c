-- ===== src/Platform/Gate/Checks.antt =====
-- The structural checks. What they use of Python on floats, texts and hashes is a parameter.
use ai_chatbot.Base.{
  ℕ, zero, suc, ◌+◌, String, ◌<>◌, Bool, true, false, ◌&&◌, not, Option, none, some, List, [], ◌∷◌,
  ◌++◌, map, if◌then◌else◌, ◌==◌, string_eq, nat_eq, minus, sorted_set, keep, all, length,
}
use ai_chatbot.Base.Dict.{Dict, lookup}
use ai_chatbot.Contracts.Enums.{is_external_exercise}
use ai_chatbot.Contracts.KnowledgeBase.{
  Chunk, ChunkSet, CleanPage, DocumentVersion, KnowledgeBaseManifest, schema_version_now,
}
use ai_chatbot.Platform.Models.{CheckResult}

-- The parts of Python's library that the checks call, over the type `F` of floats.
pub record Runtime (F : Type 0) : Type 0 where
  pub sha256_hex : String → String
  pub str : ℕ → String
  pub str_list : List ℕ → String
  pub fixed : F → String
  pub percent : F → String
  pub is_below : F → F → Bool
  pub is_finite : F → Bool
  -- `math.fsum(value * value for value in vector) == 0`
  pub is_zero_vector : List F → Bool
  -- `part / whole`
  pub ratio : ℕ → ℕ → F

pub record GateContext (F : Type 0) : Type 0 where
  pub manifest : KnowledgeBaseManifest
  pub chunk_sets : List (ChunkSet F)
  pub clean_pages : List (CleanPage F)
  pub documents : Dict DocumentVersion

abbrev pub is_empty : {A : Type 0} → List A → Bool
is_empty [] = true
is_empty (_ ∷ _) = false

-- `_result`
unfoldable pub result : String → List String → CheckResult
result name problems = record {
  name = name;
  passed = is_empty problems;
  skipped = false;
  details = problems;
}

-- A text that counts as given: `if document.licence`.
abbrev pub is_given : Option String → Bool
is_given none = false
is_given (some text) = not (text == "")

abbrev pub concat : {A B : Type 0} → (A → List B) → List A → List B
concat f [] = []
concat f (x ∷ xs) = f x ++ concat f xs

-- `separator.join(parts)`
abbrev pub join : String → List String → String
join separator [] = ""
join separator (part ∷ []) = part
join separator (part ∷ next ∷ parts) = part <> separator <> join separator (next ∷ parts)

-- The numbers from `k` on, `n` of them.
abbrev pub range_from : ℕ → ℕ → List ℕ
range_from k zero = []
range_from k (suc n) = k ∷ range_from (k + 1) n

module _ {F : Type 0} (P : Runtime F) where
  abbrev pub versions_in : GateContext F → List String
  versions_in ctx =
      map (λ set. set.schema_version) ctx.chunk_sets
      ++ (map (λ page. page.schema_version) ctx.clean_pages
          ++ map (λ item. item.1.schema_version) ctx.documents)

  unfoldable pub check_schema_versions : GateContext F → CheckResult
  unfolding result
  check_schema_versions ctx = result "schema_versions" (
      map (λ v. "unsupported schema version " <> v)
        (sorted_set (minus (versions_in ctx) (schema_version_now ∷ []))))

  -- `make_chunk_id` of libs/contracts/src/chatbot_contracts/ids.py
  unfoldable pub make_chunk_id : String → ℕ → ℕ → String → String → String → String
  make_chunk_id doc_version page_start page_end text chunker_version embedding_model =
      P.sha256_hex (
        join "\u{1f}" (
          doc_version
          ∷ P.str page_start
          ∷ P.str page_end
          ∷ text
          ∷ chunker_version
          ∷ embedding_model
          ∷ []))

  abbrev pub is_content_addressed : ChunkSet F → Chunk F → Bool
  is_content_addressed set chunk =
      (chunk.chunk_id
        == make_chunk_id chunk.doc_version chunk.page_start chunk.page_end chunk.text
            set.chunker_version set.embedding_model)
      && (chunk.doc_version == set.doc_version)

  abbrev pub chunk_id_problem : ChunkSet F → Chunk F → List String
  chunk_id_problem set chunk =
      if is_content_addressed set chunk
      then []
      else ("chunk " <> chunk.chunk_id <> " does not match its content") ∷ []

  unfoldable pub check_chunk_ids : GateContext F → CheckResult
  unfolding result make_chunk_id
  check_chunk_ids ctx =
      result "chunk_ids" (concat (λ set. concat (chunk_id_problem set) set.chunks) ctx.chunk_sets)

  -- `seen.get(doc_version, set())`
  abbrev pub pages_seen : GateContext F → String → List ℕ
  pages_seen ctx doc =
      map (λ page. page.page_no) (keep (λ page. page.doc_version == doc) ctx.clean_pages)

  -- `document.page_count`, if the document is known and has one.
  abbrev pub page_count_of : GateContext F → String → Option ℕ
  page_count_of ctx doc = elim (lookup doc ctx.documents) [
    | none ↦ none
    | some document ↦ document.page_count
  ]

  abbrev pub missing_pages : GateContext F → String → ℕ → List ℕ
  missing_pages ctx doc n = minus (range_from 1 n) (pages_seen ctx doc)

  abbrev pub coverage_problem : GateContext F → ChunkSet F → List String
  coverage_problem ctx set = elim (page_count_of ctx set.doc_version) [
    | none ↦ (set.doc_version <> " has no page count") ∷ []
    | some n ↦
        if is_empty (missing_pages ctx set.doc_version n)
        then []
        else (set.doc_version
            <> " misses pages "
            <> P.str_list (missing_pages ctx set.doc_version n))
          ∷ []
  ]

  unfoldable pub check_page_coverage : GateContext F → CheckResult
  unfolding result lookup
  check_page_coverage ctx = result "page_coverage" (concat (coverage_problem ctx) ctx.chunk_sets)

  abbrev pub ocr_problem : F → CleanPage F → List String
  ocr_problem minimum page = elim page.flags.min_ocr_conf [
    | none ↦ []
    | some conf ↦
        if P.is_below conf minimum
        then (page.doc_version
            <> " page "
            <> P.str page.page_no
            <> " ocr confidence "
            <> P.fixed conf)
          ∷ []
        else []
  ]

  unfoldable pub check_ocr_confidence : F → GateContext F → CheckResult
  unfolding result
  check_ocr_confidence minimum ctx =
      result "ocr_confidence" (concat (ocr_problem minimum) ctx.clean_pages)

  abbrev pub pii_problem : CleanPage F → List String
  pii_problem page =
      if page.flags.pii_remaining == 0
      then []
      else (page.doc_version
          <> " page "
          <> P.str page.page_no
          <> " still has "
          <> P.str page.flags.pii_remaining
          <> " PII hits")
        ∷ []

  unfoldable pub check_pii : GateContext F → CheckResult
  unfolding result
  check_pii ctx = result "pii" (concat pii_problem ctx.clean_pages)

  abbrev pub duplicates : GateContext F → ℕ
  duplicates ctx = length (keep (λ page. is_given page.flags.dup_of) ctx.clean_pages)

  abbrev pub duplicate_problem : F → F → List String
  duplicate_problem rate maximum =
      if P.is_below maximum rate
      then ("duplicate rate " <> P.percent rate <> " is above " <> P.percent maximum) ∷ []
      else []

  unfoldable pub check_duplicate_rate : F → GateContext F → CheckResult
  unfolding result
  check_duplicate_rate maximum ctx =
      if is_empty ctx.clean_pages
      then result "duplicate_rate" []
      else result "duplicate_rate"
          (duplicate_problem (P.ratio (duplicates ctx) (length ctx.clean_pages)) maximum)

  abbrev pub vector_problem : ℕ → Chunk F → List String
  vector_problem dim chunk =
      let needs = "chunk " <> chunk.chunk_id <> " needs a " <> P.str dim <> " dim embedding" in
      elim chunk.embedding [
        | none ↦ needs ∷ []
        | some vector ↦
            if not (length vector == dim)
            then needs ∷ []
            else if not (all P.is_finite vector)
            then ("chunk " <> chunk.chunk_id <> " has a non finite value") ∷ []
            else if P.is_zero_vector vector
            then ("chunk " <> chunk.chunk_id <> " has a zero vector") ∷ []
            else []
      ]

  abbrev pub model_problem : GateContext F → ChunkSet F → List String
  model_problem ctx set =
      if set.embedding_model == ctx.manifest.embedding_model
      then []
      else (set.doc_version <> " uses " <> set.embedding_model) ∷ []

  unfoldable pub check_embeddings : ℕ → GateContext F → CheckResult
  unfolding result
  check_embeddings dim ctx = result "embeddings" (
      concat (λ set. model_problem ctx set ++ concat (vector_problem dim) set.chunks)
        ctx.chunk_sets)

  abbrev pub licence_problem : String × DocumentVersion → List String
  licence_problem (_, document) =
      if is_external_exercise document.source_type && not (is_given document.licence)
      then (document.doc_version <> " is an external exercise without a licence") ∷ []
      else []

  unfoldable pub check_licences : GateContext F → CheckResult
  unfolding result
  check_licences ctx = result "licences" (concat licence_problem ctx.documents)

  unfoldable pub not_implemented_check : String → GateContext F → CheckResult
  not_implemented_check name _ = record {
    name = name;
    passed = false;
    skipped = true;
    details = "not implemented yet" ∷ [];
  }

  -- The settings that the checks read.
  pub record GateSettings : Type 0 where
    pub gate_min_ocr_confidence : F
    pub gate_max_duplicate_rate : F
    pub embedding_dim : ℕ

  unfoldable pub default_checks : GateSettings → List (GateContext F → CheckResult)
  default_checks settings =
      check_schema_versions
      ∷ check_chunk_ids
      ∷ check_page_coverage
      ∷ check_ocr_confidence settings.gate_min_ocr_confidence
      ∷ check_pii
      ∷ check_duplicate_rate settings.gate_max_duplicate_rate
      ∷ check_embeddings settings.embedding_dim
      ∷ check_licences
      ∷ not_implemented_check "retrieval_regression"
      ∷ not_implemented_check "ragas_regression"
      ∷ []
