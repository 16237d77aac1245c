-- ===== src/Platform/Versioning/Candidate.antt =====
-- `create_candidate`, `reject` and `rollback`, which write to the registry alone.
pub mod Laws
pub mod Documents
use ai_chatbot.Base.{
  ℕ, zero, suc, String, Bool, true, false, ◌&&◌, ◌||◌, not, Option, none, some, List, [], ◌∷◌, ◌++◌,
  map, Result, ok, raise, versioning, if◌then◌else◌, ◌==◌, string_eq, contains, minus, sorted_set,
}
use ai_chatbot.Base.Dict.{Dict, keys}
use ai_chatbot.Base.State.{M, ◌>>=◌, ◌>>◌, pure, gets, reading, guard}
use ai_chatbot.Contracts.Enums.{candidate, published, rejected, is_candidate, is_published}
use ai_chatbot.Contracts.KnowledgeBase.{DocumentVersion, KnowledgeBaseManifest, schema_version_now}
use ai_chatbot.Platform.Models.{serving_alias, candidate_alias}
use ai_chatbot.Platform.Registry.{
  Registry, doc_versions_by_id, get_alias, get_kb_version, retracted, next_version_id,
  add_kb_version, set_alias, set_kb_status,
}

-- A version id counts as absent when it is 0, as `if parent_id` reads it.
abbrev pub truthy : Option ℕ → Option ℕ
truthy none = none
truthy (some zero) = none
truthy (some (suc n)) = some (suc n)

abbrev pub is_empty : {A : Type 0} → List A → Bool
is_empty [] = true
is_empty (_ ∷ _) = false

-- The documents of the version that is served.
unfoldable pub base_docs : Option ℕ → Registry → Result (List String)
base_docs parent r = elim (truthy parent) [
  | none ↦ ok []
  | some n ↦ elim (get_kb_version n r) [ ok m ↦ ok m.doc_versions | raise e ↦ raise e ]
]

-- `{doc.supersedes for doc in added.values() if doc.supersedes}`
unfoldable pub superseded_in : Dict DocumentVersion → List String
superseded_in [] = []
superseded_in ((_, doc) ∷ added) = elim doc.supersedes [
  | none ↦ superseded_in added
  | some old ↦ if old == "" then superseded_in added else old ∷ superseded_in added
]

unfoldable pub dropped_docs : List String → List String → List String → Registry → List String
unfolding superseded_in
dropped_docs base add remove r =
    remove ++ (superseded_in (doc_versions_by_id add r) ++ retracted (base ++ add) r)

abbrev pub candidate_docs : List String → List String → List String → Registry → List String
candidate_docs base add remove r = sorted_set (minus (base ++ add) (dropped_docs base add remove r))

-- The record of the new candidate.
abbrev pub new_manifest :
    Option ℕ → List String → String → String → Registry → KnowledgeBaseManifest
new_manifest parent docs model chunker r = record {
  schema_version = schema_version_now;
  producer = "platform";
  version_id = next_version_id r;
  parent_version = parent;
  doc_versions = docs;
  embedding_model = model;
  chunker_version = chunker;
  status = candidate;
  gate_report_id = none;
}

unfoldable pub create_candidate :
    List String → List String → String → String → ℕ → M Registry KnowledgeBaseManifest
unfolding base_docs dropped_docs
create_candidate add remove model chunker now = do
  unknown ← gets (λ r. minus add (keys (doc_versions_by_id add r)))
  guard (is_empty unknown) versioning
  parent ← gets (get_alias serving_alias)
  base ← reading (base_docs parent)
  manifest ← gets (λ r. new_manifest parent (candidate_docs base add remove r) model chunker r)
  add_kb_version manifest now
  set_alias candidate_alias manifest.version_id now
  pure manifest

unfoldable pub reject : ℕ → ℕ → M Registry (Unit {0})
reject n now = do
  manifest ← reading (get_kb_version n)
  guard (is_candidate manifest.status) versioning
  set_kb_status n rejected none now

unfoldable pub rollback : ℕ → ℕ → M Registry (Unit {0})
rollback n now = do
  manifest ← reading (get_kb_version n)
  guard (is_published manifest.status) versioning
  set_alias serving_alias n now
