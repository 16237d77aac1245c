-- ===== src/Platform/Versioning/Candidate/Laws.antt =====
-- What the operations on candidates leave in the registry.
use ai_chatbot.Base.{
  ok_injective, ℕ, String, Bool, true, false, ◌&&◌, none, some, List, ◌≡◌, refl, ap, ◌∙◌, sym,
  arith, ok, raise, versioning, not_found, Option, Result, is_some, Result-cases, Bool-cases,
  Option-cases, inl, inr, if◌then◌else◌, ◌==◌, string_eq, nat_eq, minus,
}
use mathlib.Core.Option
use ai_chatbot.Base.Dict.{keys}
use ai_chatbot.Contracts.Enums.{KnowledgeBaseStatus, rejected, is_candidate, is_published}
use ai_chatbot.Contracts.KnowledgeBase.{KnowledgeBaseManifest}
use ai_chatbot.Platform.Models.{serving_alias, candidate_alias}
use ai_chatbot.Platform.Registry.{
  Registry, doc_versions_by_id, get_alias, get_kb_version, find_kb, next_version_id, add_kb_version,
  set_alias, set_kb_status, manifest_to_row, manifest_from_row, with_status, KbRow,
}
use ai_chatbot.Platform.Registry.Laws.{
  DistinctIds, get_alias-set_alias, set_alias-versions, get_kb_version-set_kb_status,
  set_kb_status-ok, get_alias-set_kb_status,
}
use ai_chatbot.Platform.Registry.Additions.{
  add_kb_version-next, get_alias-add_kb_version, find_kb-versions, find_kb-id,
}
use ai_chatbot.Platform.Versioning.Candidate.{
  base_docs, candidate_docs, new_manifest, create_candidate, reject, rollback, is_empty,
}

-- What a version allows: one that is unknown is not found, and one in another status is refused.
abbrev pub allowed_by : (KnowledgeBaseStatus → Bool) → Option KbRow → Result (Unit {0})
allowed_by may none = raise not_found
allowed_by may (some row) = if may row.status then ok tt else raise versioning

abbrev pub is_allowed : (KnowledgeBaseStatus → Bool) → Option KbRow → Bool
is_allowed may none = false
is_allowed may (some row) = may row.status

-- `rollback` returns for a published version, raises a versioning error for a version in another
-- status, and a not found error for an unknown one. Where it returns, it moves the serving alias
-- there and leaves the other aliases, the versions and the reports as they were; where it raises, it
-- leaves all four as they were.
pub rollback_lem :
    (n now : ℕ) (r : Registry)
    → ((rollback n now r).0 ≡ allowed_by is_published (find_kb n r))
      × ((other : String)
          → get_alias other (rollback n now r).1 ≡ (
              if is_allowed is_published (find_kb n r) && serving_alias == other
              then some n
              else get_alias other r))
      × ((rollback n now r).1.versions ≡ r.versions)
      × ((rollback n now r).1.reports ≡ r.reports)
unfolding rollback get_kb_version manifest_from_row
rollback_lem n now r =
    let (aliased, versions, reports) = set_alias-versions serving_alias n now r in
    elim (Option-cases (find_kb n r)) [
      | inl unknown ↦ rw unknown (refl, λ other. refl, refl, refl)
      | inr (row, found) ↦ elim (Bool-cases (is_published row.status)) [
        | inl e ↦
            rw (found, e)
              (
                aliased,
                λ other. ground (arith, get_alias-set_alias serving_alias other n now r),
                versions,
                reports,
              )
        | inr e ↦ rw (found, e) (refl, λ other. refl, refl, refl)
      ]
    ]

rejected_row :
    (n k now : ℕ) (r : Registry)
    → find_kb k (set_kb_status n rejected none now r).1 ≡ (
        if k == n
        then Option.map {A = KbRow} (λ row. record row { status = rejected }) (find_kb k r)
        else find_kb k r)
unfolding with_status
rejected_row n k now r = elim (Option-cases (find_kb k r)) [
  | inl e ↦ ground (arith, get_kb_version-set_kb_status n k rejected none now r)
  | inr (row, e) ↦
      ground (arith, get_kb_version-set_kb_status n k rejected none now r, find_kb-id k r row e)
]

differ : (candidate_alias == serving_alias) ≡ false
unfolding string_eq
differ = refl

-- With distinct version ids, `reject` returns for a candidate, raises a versioning error for a version
-- in another status, and a not found error for an unknown one. Where it returns, it marks the version
-- as rejected and leaves the other versions and the aliases as they were; where it raises, it leaves
-- the versions and the aliases as they were.
pub reject_lem :
    (n now : ℕ) (r : Registry)
    → DistinctIds r.versions
    → ((reject n now r).0 ≡ allowed_by is_candidate (find_kb n r))
      × ((k : ℕ)
          → find_kb k (reject n now r).1 ≡ (
              if is_allowed is_candidate (find_kb n r) && k == n
              then Option.map {A = KbRow} (λ row. record row { status = rejected }) (find_kb k r)
              else find_kb k r))
      × ((name : String) → get_alias name (reject n now r).1 ≡ get_alias name r)
unfolding reject get_kb_version manifest_from_row
reject_lem n now r d = elim (Option-cases (find_kb n r)) [
  | inl unknown ↦ rw unknown (refl, λ k. refl, λ name. refl)
  | inr (row, found) ↦ elim (Bool-cases (is_candidate row.status)) [
    | inl e ↦
        rw (found, e)
          (
            set_kb_status-ok n rejected none now r d (ap is_some found),
            λ k. rejected_row n k now r,
            λ name. get_alias-set_kb_status name n rejected none now r,
          )
    | inr e ↦ rw (found, e) (refl, λ k. refl, λ name. refl)
  ]
]

create_candidate-ok :
    (add remove base : List String) (model chunker : String) (now : ℕ) (r : Registry)
    → is_empty (minus add (keys (doc_versions_by_id add r))) ≡ true
    → base_docs (get_alias serving_alias r) r ≡ ok base
    → DistinctIds r.versions
    → create_candidate add remove model chunker now r ≡ (
      ok (
          new_manifest
            (get_alias serving_alias r)
            (candidate_docs base add remove r)
            model
            chunker
            r),
      (set_alias candidate_alias
          (next_version_id r)
          now
          (add_kb_version
            (new_manifest
              (get_alias serving_alias r)
              (candidate_docs base add remove r)
              model
              chunker
              r)
            now
            r).1).1,
    )
unfolding create_candidate
create_candidate-ok add remove base model chunker now r e b d =
    rw
      (
        e,
        b,
        (add_kb_version-next
            (new_manifest (get_alias serving_alias r) (candidate_docs base add remove r) model
              chunker r)
            now r d refl).0,
        (set_alias-versions candidate_alias (next_version_id r) now
            (add_kb_version
              (new_manifest (get_alias serving_alias r) (candidate_docs base add remove r) model
                chunker r)
              now r).1).0,
      )
      refl

create_candidate-known :
    (add remove : List String) (model chunker : String) (now : ℕ) (r t : Registry)
    (m : KnowledgeBaseManifest)
    → create_candidate add remove model chunker now r ≡ (ok m, t)
    → (is_empty (minus add (keys (doc_versions_by_id add r))) ≡ true)
      × ((base : List String) × (base_docs (get_alias serving_alias r) r ≡ ok base))
unfolding create_candidate
create_candidate-known add remove model chunker now r t m h =
    elim (Bool-cases (is_empty (minus add (keys (doc_versions_by_id add r))))) [
      | inl e ↦ elim (Result-cases (base_docs (get_alias serving_alias r) r)) [
        | inl (base, b) ↦ (e, (base, b))
        | inr (x, b) ↦ absurd (ground arith)
      ]
      | inr e ↦ absurd (ground arith)
    ]

-- A candidate that was created has the next version id, the served version as its parent, and its
-- documents come from that version and from the ones added. It is found under its id, where there
-- was no version; every other version and the serving alias stay, and the ids stay distinct.
pub create_candidate_lem :
    (add remove : List String) (model chunker : String) (now : ℕ) (r t : Registry)
    (m : KnowledgeBaseManifest)
    → DistinctIds r.versions
    → create_candidate add remove model chunker now r ≡ (ok m, t)
    → (base : List String) × (base_docs (get_alias serving_alias r) r ≡ ok base)
      × (m
          ≡ new_manifest
              (get_alias serving_alias r)
              (candidate_docs base add remove r)
              model
              chunker
              r)
      × ((k : ℕ)
          → find_kb k t
            ≡ (if k == next_version_id r then some (manifest_to_row m now) else find_kb k r))
      × DistinctIds t.versions
      × (get_alias serving_alias t ≡ get_alias serving_alias r)
      × (get_alias candidate_alias t ≡ some (next_version_id r))
create_candidate_lem add remove model chunker now r t m d h =
    let (e, (base, b)) = create_candidate-known add remove model chunker now r t m h in
    let same = sym h ∙ create_candidate-ok add remove base model chunker now r e b d in
    let made =
      new_manifest (get_alias serving_alias r) (candidate_docs base add remove r) model chunker r in
    let is_made : m ≡ made = ok_injective (ap (λ p. p.0) same) in
    let grown = (add_kb_version made now r).1 in
    let (_, distinct, found) = add_kb_version-next made now r d refl in
    let (_, versions, _) = set_alias-versions candidate_alias (next_version_id r) now grown in
    (
      base,
      b,
      is_made,
      λ k. rw (ap (λ p. p.1) same, is_made) (find_kb-versions k _ grown versions ∙ found k),
      rw (ap (λ p. p.1) same, versions) distinct,
      rw (ap (λ p. p.1) same) (
          ground (
            arith,
            differ,
            get_alias-set_alias candidate_alias serving_alias (next_version_id r) now grown,
            get_alias-add_kb_version serving_alias made now r,
          )),
      rw (ap (λ p. p.1) same) (
          ground (
            arith,
            get_alias-set_alias candidate_alias candidate_alias (next_version_id r) now grown,
          )),
    )
