-- ===== src/Platform/Versioning/Publish/Results.antt =====
-- What `publish` comes to, for a candidate over an index that keeps the contract of the port.
use ai_chatbot.Base.{
  ok_injective, ℕ, ◌<◌, String, true, false, Option, none, some, List, ◌≡◌, refl, ap, ◌∙◌, sym,
  arith, ok, all, is_some, string_eq, from_some,
}
use ai_chatbot.Contracts.Enums.{is_candidate, is_published, published}
use ai_chatbot.Contracts.KnowledgeBase.{ChunkSet, KnowledgeBaseManifest}
use ai_chatbot.Platform.Models.{serving_alias, GateReport, is_approved}
use ai_chatbot.Platform.Registry.{
  Registry, get_kb_version, find_kb, get_alias, latest_published, get_gate_report, set_alias,
  set_kb_status, with_status, manifest_from_row,
}
use ai_chatbot.Platform.Registry.Laws.{
  DistinctIds, get_kb_version-id, get_alias-set_alias, set_alias-versions,
  get_kb_version-set_kb_status, set_kb_status-ok, get_alias-set_kb_status,
}
use ai_chatbot.Platform.Registry.Queries.{has_id}
use ai_chatbot.Base.Table.{find?-sound}
use ai_chatbot.Platform.Index.{ServingIndex, IsLawful, is_visible}
use ai_chatbot.Platform.Versioning.Candidate.{truthy}
use ai_chatbot.Platform.Versioning.Publish.{publish, publish_candidate}
use ai_chatbot.Platform.Versioning.Publish.Steps.{write_registry, publish_candidate-parts}
use ai_chatbot.Platform.Versioning.Publish.Reads.{
  Plan, System, require_publishable, require_matching_sets, plan_publish, parent_of, is_newer,
  id_of_latest,
}
use ai_chatbot.Platform.Versioning.Publish.Plans.{shown, is_target, plan_lem}
use ai_chatbot.Platform.Versioning.Publish.Timeline.{is_resumable, is_visible-publish_at_self}
use ai_chatbot.Platform.Versioning.Publish.Writes.{
  opened, write_index_lem, opened-Written, accepts_all, add_chunk_sets-ok,
}
use ai_chatbot.Platform.Versioning.Publish.Visible.{target_backed}
use ai_chatbot.Platform.Versioning.Publish.Served.{latest-lt, Done, publish_candidate_lem}

-- The registry after the alias and the status of version `n` are written.
pub published_row :
    (n now : ℕ) (r : Registry) (m : KnowledgeBaseManifest)
    → DistinctIds r.versions
    → get_kb_version n r ≡ ok m
    → (out : KnowledgeBaseManifest) × ((set_alias serving_alias n now r).0 ≡ ok tt)
      × ((set_kb_status n published none now (set_alias serving_alias n now r).1).0 ≡ ok tt)
      × (get_kb_version n (set_kb_status n published none now (set_alias serving_alias n now r).1).1
          ≡ ok out)
      × (is_published out.status ≡ true)
      × (out.doc_versions ≡ m.doc_versions)
      × (get_alias serving_alias
            (set_kb_status n published none now (set_alias serving_alias n now r).1).1
          ≡ some n)
unfolding get_kb_version find_kb with_status
published_row n now r m d g =
    let (aliased, versions, _) = set_alias-versions serving_alias n now r in
    from_some (find_kb n r) (ground arith) (λ row e. (
      manifest_from_row (with_status published none now row),
      aliased,
      set_kb_status-ok n published none now _ (rw versions d) (rw versions (ap is_some e)),
      ground (
        arith,
        get_kb_version-set_kb_status n n published none now (set_alias serving_alias n now r).1,
        find?-sound (has_id n) r.versions row e,
      ),
      refl,
      ground arith,
      get_alias-set_kb_status serving_alias n published none now _
          ∙ ground (arith, get_alias-set_alias serving_alias serving_alias n now r),
    ))

module _ {F : Type 0} (I : ServingIndex F) (L : IsLawful I) where
  open L use {IsValid, intervals, stored}

  -- For an unpublished version the first guard passes.
  pub publish_open :
      (n : ℕ) (sets : List (ChunkSet F)) (now : ℕ) (s : System I) (m : KnowledgeBaseManifest)
      → get_kb_version n s.registry ≡ ok m
      → is_published m.status ≡ false
      → publish I n sets now s ≡ publish_candidate I m n sets now s
  unfolding publish
  publish_open n sets now s m g open_ = rw (g, open_) refl

  publish-Done :
      (n : ℕ) (sets : List (ChunkSet F)) (now : ℕ) (s t : System I) (m out : KnowledgeBaseManifest)
      → get_kb_version n s.registry ≡ ok m
      → is_published m.status ≡ false
      → publish I n sets now s ≡ (ok out, t)
      → Done I L m n sets s t
  publish-Done n sets now s t m out g open_ h =
      publish_candidate_lem I L m out n sets now s t (sym (publish_open n sets now s m g open_) ∙ h)

  shown_latest :
      (latest : Option KnowledgeBaseManifest) (i : I.State) (c : String)
      → is_visible (intervals i c) 0 ≡ false
      → shown I L latest i c ≡ is_visible (intervals i c) (id_of_latest latest)
  shown_latest none i c z = sym z
  shown_latest (some p) i c z = refl

  -- When a candidate was published, a chunk is visible at its version exactly if it is a target: it
  -- comes with the chunk sets, or it is a reusable chunk of a document that no set brings anew.
  pub publish_visible :
      (n : ℕ) (sets : List (ChunkSet F)) (now : ℕ) (s t : System I) (m out : KnowledgeBaseManifest)
      (parent : Option KnowledgeBaseManifest)
      → IsValid s.index
      → DistinctIds s.registry.versions
      → 0 < n
      → get_kb_version n s.registry ≡ ok m
      → is_published m.status ≡ false
      → parent_of I (truthy m.parent_version) s.registry ≡ ok parent
      → ((c : String) → is_visible (intervals s.index c) 0 ≡ false)
      → ((c : String)
          → all
              (is_resumable
                (id_of_latest (latest_published s.registry))
                n
                (is_target I L m (latest_published s.registry) parent sets s.index c))
              (intervals s.index c)
            ≡ true)
      → publish I n sets now s ≡ (ok out, t)
      → (c : String)
      → is_visible (intervals t.index c) n
        ≡ is_target I L m (latest_published s.registry) parent sets s.index c
  publish_visible n sets now s t m out parent v d pos g open_ par zero_ res h c =
      let done = publish-Done n sets now s t m out g open_ h in
      let says = plan_lem I L m sets s done.plan v done.planned in
      let back = target_backed I L m sets s done.plan v says in
      let par_same : says.parent ≡ parent = ok_injective (sym says.parent_found ∙ par) in
      let lt = latest-lt n m s.registry d pos g open_ done.publishable.newest in
      let shape = (opened-Written I L n sets done.plan s.index v back done.all_added).shape c in
      rw
        (
          done.index,
          write_index_lem I L n sets done.plan s.index v back done.all_added,
          shape,
          says.active c,
          shown_latest (latest_published s.registry) s.index c (zero_ c),
          says.target c,
          par_same,
        )
        (is_visible-publish_at_self _ n _ (intervals s.index c) lt (res c))

  -- A publication of an unpublished version returns only for a candidate whose linked gate report
  -- is approved, which is not below the latest published version, and whose chunk sets match it.
  pub publish_approved :
      (n : ℕ) (sets : List (ChunkSet F)) (now : ℕ) (s t : System I) (m out : KnowledgeBaseManifest)
      → get_kb_version n s.registry ≡ ok m
      → is_published m.status ≡ false
      → publish I n sets now s ≡ (ok out, t)
      → (is_candidate m.status ≡ true)
        × ((report : GateReport) × (id : String) × (m.gate_report_id ≡ some id)
            × (get_gate_report id s.registry ≡ ok report)
            × (is_approved report ≡ true))
        × (is_newer (latest_published s.registry) n ≡ false)
        × (require_matching_sets m sets ≡ ok tt)
  publish_approved n sets now s t m out g open_ h =
      let done = publish-Done n sets now s t m out g open_ h in
      let p = done.publishable in
      (
        p.candidate,
        (p.report, p.id, p.linked, p.reported, p.approved),
        rw (sym (get_kb_version-id n s.registry m g)) p.newest,
        done.matching,
      )

  -- The registry after the two writes of a publication.
  write_registry_lem :
      (n now : ℕ) (t : System I) (m : KnowledgeBaseManifest)
      → DistinctIds t.registry.versions
      → get_kb_version n t.registry ≡ ok m
      → (out : KnowledgeBaseManifest) × ((write_registry I n now t).0 ≡ ok out)
        × (is_published out.status ≡ true)
        × (out.doc_versions ≡ m.doc_versions)
        × (get_alias serving_alias (write_registry I n now t).1.registry ≡ some n)
  unfolding write_registry
  write_registry_lem n now t m d g =
      let (out, aliased, set_, found, status, docs, serves) =
        published_row n now t.registry m d g in
      (out, rw (aliased, set_, found) refl, status, docs, rw (aliased, set_) serves)

  -- A publication returns when its checks pass and the index takes the embeddings; the version is
  -- then published with the documents of the candidate and is the one that is served.
  pub publish_ok :
      (n : ℕ) (sets : List (ChunkSet F)) (now : ℕ) (s : System I) (m : KnowledgeBaseManifest)
      (plan : Plan)
      → IsValid s.index
      → DistinctIds s.registry.versions
      → get_kb_version n s.registry ≡ ok m
      → is_published m.status ≡ false
      → require_publishable m s.registry ≡ ok tt
      → require_matching_sets m sets ≡ ok tt
      → plan_publish I m sets s ≡ ok plan
      → accepts_all I L sets ≡ true
      → (out : KnowledgeBaseManifest) × ((publish I n sets now s).0 ≡ ok out)
        × (is_published out.status ≡ true)
        × (out.doc_versions ≡ m.doc_versions)
        × (get_alias serving_alias (publish I n sets now s).1.registry ≡ some n)
  publish_ok n sets now s m plan v d g open_ may matching planned takes =
      let says = plan_lem I L m sets s plan v planned in
      let back = target_backed I L m sets s plan v says in
      let wrote =
        write_index_lem I L n sets plan s.index v back (add_chunk_sets-ok I L sets s.index takes) in
      rw
        (
          publish_open n sets now s m g open_,
          publish_candidate-parts I m n sets now s,
          may,
          matching,
          planned,
          wrote,
        )
        (write_registry_lem n now (record s { index = opened I L n sets plan s.index }) m d g)
