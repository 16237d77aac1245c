-- ===== src/Platform/Versioning/Publish/Visible.antt =====
-- What a publication shows at its own version, and what it leaves to the versions before.
use ai_chatbot.Base.{
  ℕ, ◌<◌, String, true, ◌||◌, none, List, ◌≡◌, refl, ap, ◌∙◌, arith, ok, Result-cases, Bool-cases,
  inl, inr, contains, is_some, string_eq,
}
use ai_chatbot.Base.State.{>>=-keeps, reading}
use ai_chatbot.Contracts.Enums.{is_published, published}
use ai_chatbot.Contracts.KnowledgeBase.{ChunkSet, KnowledgeBaseManifest}
use ai_chatbot.Platform.Models.{serving_alias}
use ai_chatbot.Platform.Registry.{get_kb_version, set_alias, set_kb_status}
use ai_chatbot.Platform.Index.{ServingIndex, IsLawful, is_visible}
use ai_chatbot.Platform.Versioning.Publish.{publish, publish_candidate, add_chunk_sets}
use ai_chatbot.Platform.Versioning.Publish.Steps.{
  write_index, write_registry, publish_candidate-parts,
}
use ai_chatbot.Platform.Versioning.Publish.Reads.{
  Plan, System, require_publishable, require_matching_sets, plan_publish, new_ids, on_index,
  on_registry,
}
use ai_chatbot.Platform.Versioning.Publish.Plans.{Describes, plan_lem}
use ai_chatbot.Platform.Versioning.Publish.Timeline.{is_visible-publish_at}
use ai_chatbot.Platform.Versioning.Publish.Writes.{
  write_index_lem, write_index_raise, opened-Written, add_chunk_sets-intervals,
}

module _ {F : Type 0} (I : ServingIndex F) (L : IsLawful I) where
  open L use {IsValid, intervals, stored}

  -- A chunk of the target is stored, or comes with the sets.
  pub target_backed :
      (m : KnowledgeBaseManifest) (sets : List (ChunkSet F)) (s : System I) (plan : Plan)
      → IsValid s.index
      → Describes I L m sets s plan
      → (c : String) → contains plan.target c ≡ true
      → (is_some (stored s.index c) || contains (new_ids sets) c) ≡ true
  target_backed m sets s plan v d c h = ground (arith, d.target c)

  -- The writes on the index, whether or not they return, as the versions before `n` see them.
  write_index_before :
      (n : ℕ) (m : KnowledgeBaseManifest) (sets : List (ChunkSet F)) (s : System I) (plan : Plan)
      → IsValid s.index
      → plan_publish I m sets s ≡ ok plan
      → (c : String) (k : ℕ) → k < n
      → is_visible (intervals (write_index I n sets plan s.index).1 c) k
        ≡ is_visible (intervals s.index c) k
  write_index_before n m sets s plan v p c k h =
      elim (Result-cases (add_chunk_sets I sets s.index).0) [
        | inl (a, e) ↦
            let back = target_backed m sets s plan v (plan_lem I L m sets s plan v p) in
            rw
              (
                write_index_lem I L n sets plan s.index v back e,
                (opened-Written I L n sets plan s.index v back e).shape c,
              )
              (is_visible-publish_at n k (contains plan.active c) (contains plan.target c)
                (intervals s.index c) h)
        | inr (x, e) ↦
            rw (write_index_raise I L n sets plan s.index e)
              (ap (λ xs. is_visible xs k) (add_chunk_sets-intervals I L sets s.index c))
      ]

  -- The system as the versions before `n` see it is that of `s`.
  abbrev pub SeenAs : ℕ → System I → System I → Type 0
  SeenAs n s t =
      (c : String) (k : ℕ)
      → k < n
      → is_visible (intervals t.index c) k ≡ is_visible (intervals s.index c) k

  pub write_registry_index :
      (n now : ℕ) (t : System I) → (write_registry I n now t).1.index ≡ t.index
  unfolding write_registry
  write_registry_index n now t =
      >>=-keeps (λ u. u.index ≡ t.index) (on_registry I (set_alias serving_alias n now)) _ t refl
        (λ _ _.
          >>=-keeps (λ u. u.index ≡ t.index) (on_registry I (set_kb_status n published none now)) _
            _ refl (λ _ _. refl))

  publish_candidate_before :
      (m : KnowledgeBaseManifest) (n : ℕ) (sets : List (ChunkSet F)) (now : ℕ) (s : System I)
      → IsValid s.index
      → SeenAs n s (publish_candidate I m n sets now s).1
  publish_candidate_before m n sets now s v = rw (publish_candidate-parts I m n sets now s) (
      >>=-keeps (SeenAs n s) (reading (λ u. require_publishable m u.registry)) _ s (λ c k h. refl)
        (λ _ _.
          >>=-keeps (SeenAs n s) (reading (λ _. require_matching_sets m sets)) _ s (λ c k h. refl)
            (λ _ _.
              >>=-keeps (SeenAs n s) (reading (plan_publish I m sets)) _ s (λ c k h. refl)
                (λ plan p.
                  let same = write_index_before n m sets s plan v p in
                  >>=-keeps (SeenAs n s) (on_index I (write_index I n sets plan)) _ s same (λ _ _.
                    λ c k h.
                      ap (λ i. is_visible (intervals i c) k) (write_registry_index n now _)
                      ∙ same c k h)))))

  -- Whether a publication of `n` returns or raises, every chunk is visible to the versions before
  -- `n` as it was.
  pub publish_before :
      (n : ℕ) (sets : List (ChunkSet F)) (now : ℕ) (s : System I)
      → IsValid s.index
      → (c : String) (k : ℕ) → k < n
      → is_visible (intervals (publish I n sets now s).1.index c) k
        ≡ is_visible (intervals s.index c) k
  unfolding publish
  publish_before n sets now s v =
      >>=-keeps (SeenAs n s) (reading (λ u. get_kb_version n u.registry)) _ s (λ c k h. refl)
        (λ m _. elim (Bool-cases (is_published m.status)) [
          | inl done ↦ rw done (λ c k h. refl)
          | inr open_ ↦ rw open_ (publish_candidate_before m n sets now s v)
        ])
