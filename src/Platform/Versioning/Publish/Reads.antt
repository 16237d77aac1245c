-- ===== src/Platform/Versioning/Publish/Reads.antt =====
-- What `publish` reads before it writes: the checks, and the chunks that the version shall show.
use ai_chatbot.Base.{
  ℕ, String, Bool, false, ◌&&◌, not, Option, none, some, List, [], ◌∷◌, ◌++◌, map, Result, ok,
  raise, versioning, or_raise, raise_if, if◌then◌else◌, ◌==◌, string_eq, contains, minus, ltb, keep,
  ◌>>=◌, ◌>>◌,
}
use ai_chatbot.Base.Dict.{Dict, keys, merge}
use ai_chatbot.Base.State.{M}
use ai_chatbot.Contracts.Enums.{is_candidate}
use ai_chatbot.Contracts.KnowledgeBase.{ChunkSet, KnowledgeBaseManifest}
use ai_chatbot.Platform.Models.{is_approved}
use ai_chatbot.Platform.Registry.{Registry, get_kb_version, latest_published, get_gate_report}
use ai_chatbot.Platform.Index.{ServingIndex, chunk_ids}
use ai_chatbot.Platform.Versioning.Candidate.{truthy, is_empty}

abbrev pub id_of_latest : Option KnowledgeBaseManifest → ℕ
id_of_latest none = 0
id_of_latest (some m) = m.version_id

abbrev pub is_newer : Option KnowledgeBaseManifest → ℕ → Bool
is_newer none n = false
is_newer (some m) n = ltb n m.version_id

unfoldable pub require_publishable : KnowledgeBaseManifest → Registry → Result (Unit {0})
require_publishable m r = do
  raise_if (not (is_candidate m.status)) versioning
  id ← or_raise m.gate_report_id versioning
  report ← get_gate_report id r
  raise_if (not (is_approved report)) versioning
  raise_if (is_newer (latest_published r) m.version_id) versioning

abbrev pub is_alike : KnowledgeBaseManifest → String → String → Bool
is_alike m model chunker = m.embedding_model == model && m.chunker_version == chunker

-- The chunks that a publication shows and those that the latest published version shows.
pub record Plan : Type 0 where
  pub active : List String
  pub target : List String

module _ {F : Type 0} where
  -- One chunk set of `_require_matching_sets`.
  abbrev pub is_matching : KnowledgeBaseManifest → ChunkSet F → Bool
  is_matching m set =
      contains m.doc_versions set.doc_version
      && (set.embedding_model == m.embedding_model && set.chunker_version == m.chunker_version)

  unfoldable pub require_matching_sets :
      KnowledgeBaseManifest → List (ChunkSet F) → Result (Unit {0})
  require_matching_sets m [] = ok tt
  require_matching_sets m (set ∷ sets) =
      let rest = require_matching_sets m sets in
      if is_matching m set then rest else raise versioning

  abbrev pub rebuilt_docs : List (ChunkSet F) → List String
  rebuilt_docs = map (λ set. set.doc_version)

  abbrev pub new_ids : List (ChunkSet F) → List String
  new_ids [] = []
  new_ids (set ∷ sets) = chunk_ids set ++ new_ids sets

  -- A document of the candidate that no chunk set brings anew.
  abbrev pub is_retained_doc : KnowledgeBaseManifest → List (ChunkSet F) → String → Bool
  is_retained_doc m sets doc = contains m.doc_versions doc && not (contains (rebuilt_docs sets) doc)

  abbrev pub retained_items :
      KnowledgeBaseManifest → List (ChunkSet F) → Dict String → List (String × String)
  retained_items m sets = keep (λ item. is_retained_doc m sets item.1)

  abbrev pub missing_docs : KnowledgeBaseManifest → List (ChunkSet F) → Dict String → List String
  missing_docs m sets reusable =
      minus m.doc_versions
        (map (λ item. item.1) (retained_items m sets reusable) ++ rebuilt_docs sets)

  module _ (I : ServingIndex F) where
    pub record System : Type 0 where
      pub registry : Registry
      pub index : I.State

    abbrev pub on_registry : {A : Type 0} → M Registry A → M System A
    on_registry m s = ((m s.registry).0, record s { registry = (m s.registry).1 })

    abbrev pub on_index : {A : Type 0} → M I.State A → M System A
    on_index m s = ((m s.index).0, record s { index = (m s.index).1 })

    -- The chunks that the latest published version shows.
    abbrev pub active_of : Option KnowledgeBaseManifest → I.State → Result (Dict String)
    active_of none i = ok []
    active_of (some m) i = I.active_chunks m.version_id i

    -- One source of `_reusable_chunks`.
    abbrev pub source_chunks :
        String → String → Option KnowledgeBaseManifest → I.State → Result (Dict String)
    source_chunks model chunker none i = ok []
    source_chunks model chunker (some m) i =
        if is_alike m model chunker then I.active_chunks m.version_id i else ok []

    abbrev pub parent_of : Option ℕ → Registry → Result (Option KnowledgeBaseManifest)
    parent_of none r = ok none
    parent_of (some n) r = elim (get_kb_version n r) [ ok m ↦ ok (some m) | raise e ↦ raise e ]

    unfoldable pub reusable_chunks :
        KnowledgeBaseManifest → Option KnowledgeBaseManifest → System → Result (Dict String)
    reusable_chunks m latest s = do
      parent ← parent_of (truthy m.parent_version) s.registry
      of_latest ← source_chunks m.embedding_model m.chunker_version latest s.index
      of_parent ← source_chunks m.embedding_model m.chunker_version parent s.index
      ok (merge (merge [] of_latest) of_parent)

    unfoldable pub plan_publish : KnowledgeBaseManifest → List (ChunkSet F) → System → Result Plan
    unfolding reusable_chunks
    plan_publish m sets s = do
      active ← active_of (latest_published s.registry) s.index
      reusable ← reusable_chunks m (latest_published s.registry) s
      raise_if (not (is_empty (missing_docs m sets reusable))) versioning
      ok (record {
        active = keys active;
        target = keys (retained_items m sets reusable) ++ new_ids sets;
      })
