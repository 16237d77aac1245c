-- ===== src/Platform/Registry/Laws.antt =====
-- What the versions and the aliases of the registry say after a statement.
use ai_chatbot.Base.{
  ℕ, String, Bool, true, false, ◌&&◌, not, Option, none, some, List, [], ◌∷◌, ◌≡◌, refl, ◌∙◌, arith,
  ok, if◌then◌else◌, ◌==◌, string_eq, nat_eq, any, keep, leb, length, from_some, is_some,
}
use mathlib.Core.Option
use ai_chatbot.Base.Table.{
  find?, find?-sound, find?-update_where, find?-append, update_where, count_where, any-update_where,
}
use ai_chatbot.Contracts.Enums.{KnowledgeBaseStatus, is_published}
use ai_chatbot.Contracts.KnowledgeBase.{KnowledgeBaseManifest}
use ai_chatbot.Platform.Registry.Rows.{KbRow, AliasRow, Registry}
use ai_chatbot.Platform.Registry.Queries.{
  greatest, has_id, find_kb, get_kb_version, latest_published, get_alias,
}
use ai_chatbot.Platform.Registry.Statements.{set_alias, set_kb_status, with_status}

-- The primary key of `kb_versions`: no id stands twice.
abbrev pub DistinctIds : List KbRow → Type 0
DistinctIds [] = Unit
DistinctIds (row ∷ rows) = (any (has_id row.version_id) rows ≡ false) × DistinctIds rows

abbrev pub is_published_row : KbRow → Bool
is_published_row row = is_published row.status

pub get_kb_version-id :
    (n : ℕ) (r : Registry) (m : KnowledgeBaseManifest)
    → get_kb_version n r ≡ ok m
    → m.version_id ≡ n
unfolding get_kb_version
get_kb_version-id n r m h =
    from_some (find? (has_id n) r.versions) (ground arith)
      (λ row e. ground (arith, find?-sound (has_id n) r.versions row e))

greatest-any :
    (p : KbRow → Bool) (rows : List KbRow) (row : KbRow)
    → greatest (λ x. x.version_id) (keep p rows) ≡ some row
    → any (λ x. has_id row.version_id x && p x) rows ≡ true
unfolding greatest
greatest-any p [] row h = cc
greatest-any p (x ∷ rows) row h = ground (arith, greatest-any p rows row)

any-and :
    (n : ℕ) (p : KbRow → Bool) (rows : List KbRow)
    → any (has_id n) rows ≡ false
    → any (λ x. has_id n x && p x) rows ≡ false
any-and n p [] h = refl
any-and n p (x ∷ rows) h = ground (arith, any-and n p rows)

-- Of rows with distinct ids the one that is found is the one that is meant.
find?-any :
    (n : ℕ) (p : KbRow → Bool) (rows : List KbRow) (row : KbRow)
    → DistinctIds rows
    → find? (has_id n) rows ≡ some row
    → any (λ x. has_id n x && p x) rows ≡ true
    → p row ≡ true
unfolding find?
find?-any n p [] row d h a = cc
find?-any n p (x ∷ rows) row d h a =
    ground (arith, any-and x.version_id p rows d.0, find?-any n p rows row d.1)

pub latest_published-status :
    (r : Registry) (p m : KnowledgeBaseManifest)
    → DistinctIds r.versions
    → latest_published r ≡ some p
    → get_kb_version p.version_id r ≡ ok m
    → is_published m.status ≡ true
unfolding latest_published get_kb_version
latest_published-status r p m d l g =
    from_some (greatest (λ row. row.version_id) (keep is_published_row r.versions)) (ground arith)
      (λ row e. from_some (find? (has_id p.version_id) r.versions) (ground arith) (λ found f.
        ground (
          arith,
          greatest-any is_published_row r.versions row e,
          find?-any p.version_id is_published_row r.versions found d f,
        )))

abbrev pub is_bounded : ℕ → Option KbRow → Bool
is_bounded n none = false
is_bounded n (some row) = leb n row.version_id

any-keep :
    (rows : List KbRow) (p : KbRow → Bool) (n : ℕ)
    → greatest (λ x. x.version_id) (keep p rows) ≡ none
    → any (λ x. has_id n x && p x) rows ≡ false
unfolding greatest
any-keep [] p n h = refl
any-keep (x ∷ rows) p n h = ground (arith, any-keep rows p n)

greatest-bounds :
    (rows : List KbRow) (p : KbRow → Bool) (n : ℕ)
    → any (λ x. has_id n x && p x) rows ≡ true
    → is_bounded n (greatest (λ x. x.version_id) (keep p rows)) ≡ true
unfolding greatest
greatest-bounds [] p n a = cc
greatest-bounds (x ∷ rows) p n a = ground (arith, greatest-bounds rows p n, any-keep rows p n)

count-is_some :
    {A : Type 0} (p : A → Bool) (rows : List A)
    → (count_where p rows == 0) ≡ not (is_some (find? p rows))
unfolding count_where find?
count-is_some p [] = ground arith
count-is_some p (x ∷ rows) = ground (arith, count-is_some p rows)

abbrev names : String → AliasRow → Bool
names name row = row.name == name

abbrev version_of : Option AliasRow → Option ℕ
version_of = Option.map (λ row. row.version_id)

abbrev moved : ℕ → ℕ → AliasRow → AliasRow
moved n now row = record row { version_id = n; updated_at = now }

find?-moved :
    (name other : String) (n now : ℕ) (rows : List AliasRow)
    → version_of (find? (names other) (update_where (names name) (moved n now) rows)) ≡ (
        if name == other && is_some (find? (names name) rows)
        then some n
        else version_of (find? (names other) rows))
unfolding find? update_where
find?-moved name other n now [] = ground arith
find?-moved name other n now (row ∷ rows) = ground (arith, find?-moved name other n now rows)

-- `get_alias` after `set_alias`: the alias that was set, and every other one as it was.
pub get_alias-set_alias :
    (name other : String) (n now : ℕ) (r : Registry)
    → get_alias other (set_alias name n now r).1
      ≡ (if name == other then some n else get_alias other r)
unfolding get_alias set_alias
get_alias-set_alias name other n now r = ground (
  arith,
  count-is_some (names name) r.aliases,
  find?-append (names other) r.aliases
      (record { name = name; version_id = n; updated_at = now } ∷ []),
  find?-moved name other n now r.aliases,
)

-- An alias leaves the versions and the reports alone.
pub set_alias-versions :
    (name : String) (n now : ℕ) (r : Registry)
    → ((set_alias name n now r).0 ≡ ok tt)
      × ((set_alias name n now r).1.versions ≡ r.versions)
      × ((set_alias name n now r).1.reports ≡ r.reports)
unfolding set_alias
set_alias-versions name n now r = ground arith

-- `get_kb_version` after `set_kb_status`.
pub get_kb_version-set_kb_status :
    (n k : ℕ) (status : KnowledgeBaseStatus) (report : Option String) (now : ℕ) (r : Registry)
    → find_kb k (set_kb_status n status report now r).1
      ≡ Option.map
          (λ row. if has_id n row then with_status status report now row else row)
          (find_kb k r)
unfolding find_kb set_kb_status
get_kb_version-set_kb_status n k status report now r =
    find?-update_where (has_id k) (has_id n) (with_status status report now) r.versions
      (λ row. refl)
    ∙ ground arith

pub set_kb_status-DistinctIds :
    (n : ℕ) (status : KnowledgeBaseStatus) (report : Option String) (now : ℕ) (rows : List KbRow)
    → DistinctIds rows
    → DistinctIds (update_where (has_id n) (with_status status report now) rows)
unfolding update_where with_status
set_kb_status-DistinctIds n status report now [] d = tt
set_kb_status-DistinctIds n status report now (row ∷ rows) d = ground (
  arith,
  any-update_where (has_id row.version_id) (has_id n) (with_status status report now) rows
      (λ x. refl),
  set_kb_status-DistinctIds n status report now rows d.1,
)

count-none :
    (n : ℕ) (rows : List KbRow) → any (has_id n) rows ≡ false → length (keep (has_id n) rows) ≡ 0
count-none n [] h = refl
count-none n (row ∷ rows) h = ground (arith, count-none n rows)

-- With distinct ids one row is counted for an id that is found, and the statement returns.
count-find? :
    (n : ℕ) (rows : List KbRow)
    → DistinctIds rows
    → count_where (has_id n) rows ≡ (if is_some (find? (has_id n) rows) then 1 else 0)
unfolding count_where find?
count-find? n [] d = refl
count-find? n (row ∷ rows) d = ground (arith, count-find? n rows d.1, count-none n rows)

pub set_kb_status-ok :
    (n : ℕ) (status : KnowledgeBaseStatus) (report : Option String) (now : ℕ) (r : Registry)
    → DistinctIds r.versions
    → is_some (find_kb n r) ≡ true
    → (set_kb_status n status report now r).0 ≡ ok tt
unfolding set_kb_status find_kb
set_kb_status-ok n status report now r d h = ground (arith, count-find? n r.versions d)

-- A status leaves the aliases alone.
pub get_alias-set_kb_status :
    (name : String) (n : ℕ) (status : KnowledgeBaseStatus) (report : Option String) (now : ℕ)
    (r : Registry)
    → get_alias name (set_kb_status n status report now r).1 ≡ get_alias name r
unfolding get_alias set_kb_status
get_alias-set_kb_status name n status report now r = refl
