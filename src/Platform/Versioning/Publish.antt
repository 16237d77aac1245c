-- ===== src/Platform/Versioning/Publish.antt =====
-- `publish`, over any serving index. The system is the registry and the state of the index; what a
-- raise finds written stays written, as every step is a transaction of its own.
mod Reads
pub mod Timeline
pub mod Plans
pub mod Steps
pub mod Writes
pub mod Visible
pub mod Served
pub mod Results
pub mod Release
pub mod Stops
pub mod Halts
pub mod Restart
unfoldable pub use Reads.*
use ai_chatbot.Base.{
  ℕ, Bool, true, false, none, some, List, [], ◌∷◌, ◌++◌, map, ok, raise, if◌then◌else◌, minus,
  string_eq,
}
use ai_chatbot.Base.State.{M, ◌>>=◌, ◌>>◌, pure, reading, run_writes}
use ai_chatbot.Contracts.Enums.{published, is_published}
use ai_chatbot.Contracts.KnowledgeBase.{ChunkSet, KnowledgeBaseManifest}
use ai_chatbot.Platform.Models.{serving_alias}
use ai_chatbot.Platform.Registry.{get_kb_version, set_alias, set_kb_status}
use ai_chatbot.Platform.Index.{ServingIndex}

module _ {F : Type 0} (I : ServingIndex F) where
  -- `for chunk_set in chunk_sets: index.add_chunk_set(chunk_set)`
  unfoldable pub add_chunk_sets : List (ChunkSet F) → M I.State (Unit {0})
  add_chunk_sets sets = run_writes (map I.add_chunk_set sets)

  -- The writes on the index, in their order.
  unfoldable pub index_writes : ℕ → List (ChunkSet F) → Plan → List (M I.State (Unit {0}))
  index_writes n sets plan =
      map I.add_chunk_set sets
      ++ (I.close_intervals (minus plan.active plan.target) n
          ∷ I.open_intervals (minus plan.target plan.active) n
          ∷ [])

  -- The writes on the registry: first the alias, then the status.
  unfoldable pub registry_writes : ℕ → ℕ → List (M (System I) (Unit {0}))
  registry_writes n now =
      on_registry I (set_alias serving_alias n now)
      ∷ on_registry I (set_kb_status n published none now)
      ∷ []

  -- All writes of a publication, each a transaction of its own.
  unfoldable pub publish_writes : ℕ → List (ChunkSet F) → Plan → ℕ → List (M (System I) (Unit {0}))
  unfolding index_writes registry_writes
  publish_writes n sets plan now =
      map (on_index I) (index_writes n sets plan) ++ registry_writes n now

  unfoldable pub publish_candidate :
      KnowledgeBaseManifest → ℕ → List (ChunkSet F) → ℕ → M (System I) KnowledgeBaseManifest
  unfolding publish_writes
  publish_candidate m n sets now = do
    reading (λ s. require_publishable m s.registry)
    reading (λ _. require_matching_sets m sets)
    plan ← reading (plan_publish I m sets)
    run_writes (publish_writes n sets plan now)
    reading (λ s. get_kb_version n s.registry)

  unfoldable pub publish : ℕ → List (ChunkSet F) → ℕ → M (System I) KnowledgeBaseManifest
  unfolding publish_candidate
  publish n sets now = do
    m ← reading (λ s. get_kb_version n s.registry)
    if is_published m.status then pure m else publish_candidate m n sets now
