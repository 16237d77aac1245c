-- ===== src/Platform/Registry/Additions.antt =====
-- A new version in the registry.
use ai_chatbot.Base.{
  ℕ, ◌<◌, String, true, false, some, List, [], ◌∷◌, ◌++◌, ◌≡◌, refl, arith, ok, if◌then◌else◌, ◌==◌,
  string_eq, nat_eq, any, any-append,
}
use ai_chatbot.Base.Table.{find?, find?-append, find?-sound, any-find?}
use ai_chatbot.Contracts.KnowledgeBase.{KnowledgeBaseManifest}
use ai_chatbot.Platform.Registry.Rows.{KbRow, Registry, manifest_to_row}
use ai_chatbot.Platform.Registry.Queries.{highest, has_id, find_kb, get_alias, next_version_id}
use ai_chatbot.Platform.Registry.Statements.{add_kb_version}
use ai_chatbot.Platform.Registry.Laws.{DistinctIds}

-- Every id in the table is below the next one.
any-above : (n : ℕ) (rows : List KbRow) → highest rows < n → any (has_id n) rows ≡ false
any-above n [] h = refl
any-above n (row ∷ rows) h = ground (arith, any-above n rows)

DistinctIds-append :
    (rows : List KbRow) (row : KbRow)
    → DistinctIds rows
    → any (has_id row.version_id) rows ≡ false
    → DistinctIds (rows ++ (row ∷ []))
DistinctIds-append [] row d h = (refl, tt)
DistinctIds-append (x ∷ rows) row d h = (
  ground (arith, any-append (has_id x.version_id) rows (row ∷ [])),
  DistinctIds-append rows row d.1 (ground arith),
)

-- A manifest with the next version id is added: the ids stay distinct, the version is found with
-- the columns of the manifest, and every other version as it was.
pub add_kb_version-next :
    (m : KnowledgeBaseManifest) (now : ℕ) (r : Registry)
    → DistinctIds r.versions
    → m.version_id ≡ next_version_id r
    → ((add_kb_version m now r).0 ≡ ok tt)
      × DistinctIds (add_kb_version m now r).1.versions
      × ((k : ℕ)
          → find_kb k (add_kb_version m now r).1
            ≡ (if k == m.version_id then some (manifest_to_row m now) else find_kb k r))
unfolding add_kb_version next_version_id find_kb manifest_to_row find?
add_kb_version-next m now r d e =
    let fresh : any (has_id m.version_id) r.versions ≡ false =
      any-above m.version_id r.versions (ground arith) in
    (
      rw fresh refl,
      rw fresh (DistinctIds-append r.versions (manifest_to_row m now) d fresh),
      λ k. rw fresh (
          ground (
            arith,
            find?-append (has_id k) r.versions (manifest_to_row m now ∷ []),
            any-find? (has_id m.version_id) r.versions fresh,
          )),
    )

pub get_alias-add_kb_version :
    (name : String) (m : KnowledgeBaseManifest) (now : ℕ) (r : Registry)
    → get_alias name (add_kb_version m now r).1 ≡ get_alias name r
unfolding get_alias add_kb_version
get_alias-add_kb_version name m now r = ground arith

pub find_kb-versions :
    (k : ℕ) (q r : Registry) → q.versions ≡ r.versions → find_kb k q ≡ find_kb k r
unfolding find_kb
find_kb-versions k q r h = rw h refl

pub find_kb-id : (k : ℕ) (r : Registry) (row : KbRow) → find_kb k r ≡ some row → has_id k row ≡ true
unfolding find_kb
find_kb-id k r row h = find?-sound (has_id k) r.versions row h
