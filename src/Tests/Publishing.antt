-- ===== src/Tests/Publishing.antt =====
-- The publication of the sample candidate.
use ai_chatbot.Base.{
  ℕ, String, Bool, true, false, some, [], ◌∷◌, ◌≡◌, refl, arith, ok, all, string_eq, nat_eq, minus,
}
use ai_chatbot.Base.Dict.{lookup, merge}
use ai_chatbot.Contracts.KnowledgeBase.{KnowledgeBaseManifest}
use ai_chatbot.Contracts.Enums.{is_published, is_candidate, published}
use ai_chatbot.Platform.Models.{serving_alias, GateReport, is_approved}
use ai_chatbot.Platform.Registry.{
  manifest_from_row, get_kb_version, latest_published, get_alias, get_gate_report, set_alias,
  set_kb_status,
}
use ai_chatbot.Platform.Registry.Laws.{DistinctIds}
use ai_chatbot.Platform.Index.{is_visible}
use ai_chatbot.Platform.Index.Memory.{memory_index, intervals_of, active_chunks, open_intervals}
use ai_chatbot.Platform.Index.Memory.Active.{IsValid}
use ai_chatbot.Platform.Index.Memory.Lawful.{memory_lawful}
use ai_chatbot.Platform.Versioning.Publish.{
  System, publish, plan_publish, Plan, publish_candidate, publish_writes, index_writes,
  registry_writes, require_publishable, require_matching_sets, is_newer,
}
use ai_chatbot.Platform.Versioning.Publish.Timeline.{is_resumable}
use ai_chatbot.Platform.Versioning.Publish.Visible.{publish_before}
use ai_chatbot.Platform.Versioning.Publish.Results.{publish_visible, publish_approved, publish_ok}
use ai_chatbot.Tests.Sample.{system, set_b, index, row_1, row_2}

pub index-IsValid : IsValid index
unfolding lookup
index-IsValid = record { distinct = ground arith; backed = λ c h. ground arith }

abbrev published_system : System {F = ℕ} memory_index
published_system = (publish memory_index 2 (set_b ∷ []) 9 system).1

abbrev pub published_2 : KnowledgeBaseManifest
published_2 = manifest_from_row (record row_2 { status = published; published_at = some 9 })

publish-2 : publish memory_index 2 (set_b ∷ []) 9 system ≡ (ok published_2, published_system)
unfolding publish publish_candidate get_kb_version nat_eq require_publishable get_gate_report
    string_eq is_approved latest_published require_matching_sets plan_publish active_chunks minus
    publish_writes index_writes registry_writes memory_lawful merge open_intervals set_alias
    set_kb_status
publish-2 = refl

pub all_resumable :
    (wanted : Bool) (c : String) → all (is_resumable 1 2 wanted) (intervals_of index c) ≡ true
unfolding lookup
all_resumable wanted c = ground arith

pub none_at_0 : (c : String) → is_visible (intervals_of index c) 0 ≡ false
unfolding lookup
none_at_0 c = ground arith

pub distinct : DistinctIds system.registry.versions
unfolding nat_eq
distinct = (refl, (refl, tt))

publish_before_example :
    is_visible (intervals_of published_system.index "a1") 1 ≡ is_visible (intervals_of index "a1") 1
unfolding memory_lawful
publish_before_example =
    publish_before memory_index memory_lawful 2 (set_b ∷ []) 9 system index-IsValid "a1" 1
      (ground arith)

publish_visible_example : is_visible (intervals_of published_system.index "b1") 2 ≡ true
unfolding lookup get_kb_version latest_published nat_eq string_eq memory_lawful
publish_visible_example =
    publish_visible memory_index memory_lawful 2 (set_b ∷ []) 9 system published_system
      (manifest_from_row row_2) published_2 (some (manifest_from_row row_1)) index-IsValid distinct
      (ground arith) refl refl refl none_at_0 (λ c. all_resumable _ c) publish-2 "b1"

publish_approved_example :
    (is_candidate row_2.status ≡ true)
    × ((report : GateReport) × (id : String) × (row_2.gate_report_id ≡ some id)
        × (get_gate_report id system.registry ≡ ok report)
        × (is_approved report ≡ true))
    × (is_newer (latest_published system.registry) 2 ≡ false)
    × (require_matching_sets (manifest_from_row row_2) (set_b ∷ []) ≡ ok tt)
unfolding get_kb_version nat_eq
publish_approved_example =
    publish_approved memory_index memory_lawful 2 (set_b ∷ []) 9 system published_system
      (manifest_from_row row_2) published_2 refl refl publish-2

abbrev pub plan_2 : Plan
plan_2 = record { active = "a1" ∷ []; target = "a1" ∷ "b1" ∷ "b2" ∷ [] }

publish_ok_example :
    (out : KnowledgeBaseManifest) × ((publish memory_index 2 (set_b ∷ []) 9 system).0 ≡ ok out)
    × (is_published out.status ≡ true)
    × (out.doc_versions ≡ "a" ∷ "b" ∷ [])
    × (get_alias serving_alias (publish memory_index 2 (set_b ∷ []) 9 system).1.registry ≡ some 2)
unfolding get_kb_version nat_eq string_eq get_gate_report is_approved latest_published
    require_publishable require_matching_sets plan_publish active_chunks minus memory_lawful merge
publish_ok_example =
    publish_ok memory_index memory_lawful 2 (set_b ∷ []) 9 system (manifest_from_row row_2) plan_2
      index-IsValid distinct refl refl refl refl refl refl
