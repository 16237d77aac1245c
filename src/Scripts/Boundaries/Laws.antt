-- ===== src/Scripts/Boundaries/Laws.antt =====
-- A workspace without a problem keeps its boundaries.
use ai_chatbot.Base.{
  true_ne_false, String, Bool, true, false, ◌||◌, Option, none, some, List, [], ◌∷◌, ◌==◌,
  string_eq, contains, minus, contains-minus, contains-minus, sorted_set, ==_iff, is_empty,
  is_empty-map, is_empty-append, is_empty-sorted_set, all-contains, all, ◌≡◌, refl, ◌∙◌, sym, arith,
  is_some, Option-cases, Bool-cases, inl, inr,
}
use ai_chatbot.Base.Dict.{Dict, lookup, keys}
use ai_chatbot.Base.Sorting.{sort_by, all-sort_by}
use ai_chatbot.Scripts.Boundaries.{
  shared, composer, not_composed, allowed_table, or_shared, allowed_for, problem, package_problems,
  problems_of, entry_before, violations,
}

-- Every dependency of the member is allowed.
abbrev pub is_clean : Dict (List String) → String × List String → Bool
is_clean graph (member, internal) = all (contains (allowed_for graph member)) internal

is_empty-minus : (xs ys : List String) → is_empty (minus xs ys) ≡ all (contains ys) xs
unfolding minus
is_empty-minus [] ys = refl
is_empty-minus (x ∷ xs) ys = ground (arith, is_empty-minus xs ys)

package_problems-empty :
    (graph : Dict (List String)) (entry : String × List String)
    → is_empty (package_problems graph entry.0 entry.1) ≡ is_clean graph entry
package_problems-empty graph (member, internal) =
    let extra = minus internal (allowed_for graph member) in
    is_empty-map (problem member) (sorted_set extra)
    ∙ is_empty-sorted_set extra
    ∙ is_empty-minus internal (allowed_for graph member)

problems_of-empty :
    (graph entries : Dict (List String))
    → is_empty (problems_of graph entries) ≡ all (is_clean graph) entries
unfolding problems_of
problems_of-empty graph [] = refl
problems_of-empty graph ((member, internal) ∷ rest) =
    is_empty-append (package_problems graph member internal) (problems_of graph rest)
    ∙ ground (arith, package_problems-empty graph (member, internal), problems_of-empty graph rest)

-- A workspace has no problem exactly if every dependency of every package is allowed.
pub violations-empty :
    (graph : Dict (List String)) → is_empty (violations graph) ≡ all (is_clean graph) graph
unfolding violations
violations-empty graph =
    problems_of-empty graph (sort_by entry_before graph)
    ∙ all-sort_by entry_before (is_clean graph) graph

all-lookup :
    (p : String × List String → Bool) (d : Dict (List String)) (k : String) (v : List String)
    → all p d ≡ true
    → lookup k d ≡ some v
    → p (k, v) ≡ true
unfolding lookup
all-lookup p [] k v h found = cc
all-lookup p ((j, w) ∷ d) k v h found = ground (arith, all-lookup p d k v)

composer_left_out : contains not_composed composer ≡ true
unfolding string_eq
composer_left_out = refl

shared-composer : contains shared composer ≡ false
unfolding string_eq
shared-composer = refl

contracts-composer : contains ("chatbot-contracts" ∷ []) composer ≡ false
unfolding string_eq
contracts-composer = refl

allowed_table-composer :
    (member : String) (names : List String)
    → lookup member allowed_table ≡ some names
    → contains names composer ≡ false
unfolding lookup
allowed_table-composer member names h = ground (arith, contracts-composer)

or_shared-composer :
    (o : Option (List String))
    → ((names : List String) → o ≡ some names → contains names composer ≡ false)
    → contains (or_shared o) composer ≡ false
or_shared-composer none h = shared-composer
or_shared-composer (some names) h = h names refl

-- No table of allowed names holds the composer.
allowed_for-composer :
    (graph : Dict (List String)) (member : String)
    → contains (allowed_for graph member) composer ≡ false
unfolding allowed_for
allowed_for-composer graph member = elim (Bool-cases (member == composer)) [
  | inl self ↦
      rw (allowed_for, self)
        (contains-minus composer (keys graph) not_composed ∙ ground (arith, composer_left_out))
  | inr other ↦
      rw (allowed_for, other)
        (or_shared-composer (lookup member allowed_table) (allowed_table-composer member))
]

allowed_for-other :
    (graph : Dict (List String)) (member : String)
    → (member == composer) ≡ false
    → lookup member allowed_table ≡ none
    → allowed_for graph member ≡ shared
unfolding allowed_for
allowed_for-other graph member other plain = rw (other, plain) refl

not_composer :
    (graph : Dict (List String)) (member dependency : String)
    → contains (allowed_for graph member) dependency ≡ true
    → (dependency == composer) ≡ false
not_composer graph member dependency h = elim (Bool-cases (dependency == composer)) [
  | inl same ↦
      let there = rw ((==_iff dependency composer).0 same) at h in
      absurd (true_ne_false (sym there ∙ allowed_for-composer graph member))
  | inr other ↦ other
]

shared_only :
    (graph : Dict (List String)) (member dependency : String)
    → contains (allowed_for graph member) dependency ≡ true
    → (member == composer || is_some (lookup member allowed_table) || contains shared dependency)
      ≡ true
shared_only graph member dependency h = elim (Bool-cases (member == composer)) [
  | inl self ↦ rw self refl
  | inr other ↦ elim (Option-cases (lookup member allowed_table)) [
    | inl plain ↦ rw (other, plain) (rw (allowed_for-other graph member other plain) at h)
    | inr (names, found) ↦ rw (other, found) refl
  ]
]

-- In a workspace without a problem no package depends on the composer, and a package that is
-- neither the composer nor a shared library depends on shared libraries only.
pub violations-none :
    (graph : Dict (List String)) (member dependency : String) (internal : List String)
    → is_empty (violations graph) ≡ true
    → lookup member graph ≡ some internal
    → contains internal dependency ≡ true
    → ((dependency == composer) ≡ false)
      × ((member == composer || is_some (lookup member allowed_table) || contains shared dependency)
          ≡ true)
violations-none graph member dependency internal clean found needs =
    let fine = sym (violations-empty graph) ∙ clean in
    let granted : contains (allowed_for graph member) dependency ≡ true =
      all-contains (contains (allowed_for graph member)) internal dependency
        (all-lookup (is_clean graph) graph member internal fine found) needs in
    (not_composer graph member dependency granted, shared_only graph member dependency granted)
