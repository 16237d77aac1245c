-- ===== src/Platform/Versioning/Publish/Plans.antt =====
-- What the plan of a publication says, over an index that keeps the contract of the port.
use ai_chatbot.Base.{
  String, Bool, false, ◌&&◌, ◌||◌, Option, none, some, List, [], ◌++◌, ◌≡◌, refl, arith, ok,
  if◌then◌else◌, string_eq, contains, contains-append, Result-cases, Bool-cases, inl, inr,
}
use ai_chatbot.Base.Dict.{
  Dict, lookup, keys, merge, lookup-merge, last_or-lookup, contains-keys, contains-keys-keep,
  NodupKeys, merge-NodupKeys,
}
use ai_chatbot.Contracts.KnowledgeBase.{ChunkSet, KnowledgeBaseManifest}
use ai_chatbot.Platform.Registry.{latest_published}
use ai_chatbot.Platform.Index.{ServingIndex, IsLawful, is_visible, doc_of}
use ai_chatbot.Platform.Versioning.Candidate.{truthy}
use ai_chatbot.Platform.Versioning.Publish.Reads.{
  Plan, System, is_alike, active_of, source_chunks, parent_of, reusable_chunks, plan_publish,
  retained_items, is_retained_doc, new_ids,
}

module _ {F : Type 0} (I : ServingIndex F) (L : IsLawful I) where
  open L use {IsValid, intervals, stored}

  -- The chunk is visible at the version, if there is one.
  abbrev pub shown : Option KnowledgeBaseManifest → I.State → String → Bool
  shown none i c = false
  shown (some p) i c = is_visible (intervals i c) p.version_id

  -- The chunk can be reused from the version: it is encoded alike and visible there.
  abbrev pub shown_alike :
      KnowledgeBaseManifest → Option KnowledgeBaseManifest → I.State → String → Bool
  shown_alike m none i c = false
  shown_alike m (some p) i c =
      is_alike p m.embedding_model m.chunker_version && is_visible (intervals i c) p.version_id

  abbrev pub is_wanted_doc : KnowledgeBaseManifest → List (ChunkSet F) → Option String → Bool
  is_wanted_doc m sets none = false
  is_wanted_doc m sets (some doc) = is_retained_doc m sets doc

  -- The chunks of version `m`: those of the new sets, and those that the latest version or the
  -- parent shows in the same encoding, of documents of `m` that no set brings anew.
  abbrev pub is_target :
      KnowledgeBaseManifest
      → Option KnowledgeBaseManifest
      → Option KnowledgeBaseManifest
      → List (ChunkSet F)
      → I.State
      → String
      → Bool
  is_target m latest parent sets i c =
      ((shown_alike m latest i c || shown_alike m parent i c)
        && is_wanted_doc m sets (doc_of (stored i c)))
      || contains (new_ids sets) c

  active_of_lem :
      (latest : Option KnowledgeBaseManifest) (i : I.State)
      → IsValid i
      → (d : Dict String) × (active_of I latest i ≡ ok d)
        × ((c : String) → contains (keys d) c ≡ shown latest i c)
  unfolding lookup
  active_of_lem none i v = ([], refl, λ c. refl)
  active_of_lem (some p) i v =
      let (d, found, once, same) = L.active i v p.version_id in
      (
        d,
        found,
        λ c. ground (arith, contains-keys c d, same c, L.stored_of_visible i v c p.version_id),
      )

  source_chunks_lem :
      (m : KnowledgeBaseManifest) (source : Option KnowledgeBaseManifest) (i : I.State)
      → IsValid i
      → (d : Dict String) × (source_chunks I m.embedding_model m.chunker_version source i ≡ ok d)
        × NodupKeys d
        × ((c : String)
            → lookup c d ≡ (if shown_alike m source i c then doc_of (stored i c) else none))
  unfolding lookup
  source_chunks_lem m none i v = ([], refl, tt, λ c. refl)
  source_chunks_lem m (some p) i v =
      let (d, found, once, same) = L.active i v p.version_id in
      elim (Bool-cases (is_alike p m.embedding_model m.chunker_version)) [
        | inl alike ↦ (d, rw alike found, once, λ c. rw alike (same c))
        | inr other ↦ ([], rw other, tt, λ c. rw other)
      ]

  -- The chunks to reuse: the parent's entry of a chunk is the same as the latest version's.
  reusable_lem :
      (m : KnowledgeBaseManifest) (latest parent : Option KnowledgeBaseManifest) (s : System I)
      → IsValid s.index
      → parent_of I (truthy m.parent_version) s.registry ≡ ok parent
      → (d : Dict String) × (reusable_chunks I m latest s ≡ ok d)
        × NodupKeys d
        × ((c : String)
            → lookup c d ≡ (
                if shown_alike m latest s.index c || shown_alike m parent s.index c
                then doc_of (stored s.index c)
                else none))
  unfolding reusable_chunks lookup
  reusable_lem m latest parent s v p =
      let (d, d_found, d_once, d_same) = source_chunks_lem m latest s.index v in
      let (e, e_found, e_once, e_same) = source_chunks_lem m parent s.index v in
      (
        merge (merge [] d) e,
        rw (p, d_found, e_found),
        merge-NodupKeys (merge [] d) e (merge-NodupKeys [] d tt),
        λ c. ground (
          arith,
          lookup-merge c (merge [] d) e,
          lookup-merge c [] d,
          last_or-lookup (lookup c (merge [] d)) c e e_once,
          last_or-lookup none c d d_once,
          d_same c,
          e_same c,
        ),
      )

  -- The active chunks and the target of a plan, read off the intervals.
  pub record Describes (m : KnowledgeBaseManifest) (sets : List (ChunkSet F)) (s : System I)
      (plan : Plan) : Type 0 where
    pub parent : Option KnowledgeBaseManifest
    pub parent_found : parent_of I (truthy m.parent_version) s.registry ≡ ok parent
    pub active :
        (c : String) → contains plan.active c ≡ shown (latest_published s.registry) s.index c
    pub target :
        (c : String)
        → contains plan.target c ≡ is_target m (latest_published s.registry) parent sets s.index c

  plan_of_parts :
      (m : KnowledgeBaseManifest) (sets : List (ChunkSet F)) (s : System I) (plan : Plan)
      (parent : Option KnowledgeBaseManifest) (d : Dict String)
      → plan.target ≡ keys (retained_items m sets d) ++ new_ids sets
      → NodupKeys d
      → (c : String)
      → lookup c d ≡ (
          if shown_alike m (latest_published s.registry) s.index c || shown_alike m parent s.index c
          then doc_of (stored s.index c)
          else none)
      → contains plan.target c ≡ is_target m (latest_published s.registry) parent sets s.index c
  plan_of_parts m sets s plan parent d t once c same = rw t (
      ground (
        arith,
        contains-append c (keys (retained_items m sets d)) (new_ids sets),
        contains-keys-keep (λ item. is_retained_doc m sets item.1) c d once,
      ))

  pub plan_lem :
      (m : KnowledgeBaseManifest) (sets : List (ChunkSet F)) (s : System I) (plan : Plan)
      → IsValid s.index
      → plan_publish I m sets s ≡ ok plan
      → Describes m sets s plan
  unfolding plan_publish
  plan_lem m sets s plan v h =
      let latest = latest_published s.registry in
      let (a, a_found, a_same) = active_of_lem latest s.index v in
      elim (Result-cases (parent_of I (truthy m.parent_version) s.registry)) [
        | inl (parent, p) ↦
            let (d, found, once, same) = reusable_lem m latest parent s v p in
            record {
              parent = parent;
              parent_found = p;
              active = λ c. ground (arith, a_same c);
              target = λ c. plan_of_parts m sets s plan parent d (ground arith) once c (same c);
            }
        | inr (e, p) ↦ absurd (ground arith)
      ]
