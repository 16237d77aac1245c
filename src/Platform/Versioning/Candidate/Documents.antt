-- ===== src/Platform/Versioning/Candidate/Documents.antt =====
-- Which documents a candidate has.
use ai_chatbot.Base.{
  String, Bool, false, ◌&&◌, ◌||◌, not, none, some, List, [], ◌∷◌, ◌++◌, map, keep, any, ◌≡◌, refl,
  ap, ◌∙◌, arith, ◌==◌, string_eq, Bool-cases, inl, inr, contains, contains-append, contains-minus,
  contains-sorted_set, minus,
}
use ai_chatbot.Base.Dict.{Dict, NodupKeys, lookup, of_pairs-NodupKeys}
use ai_chatbot.Contracts.KnowledgeBase.{DocumentVersion}
use ai_chatbot.Platform.Registry.{
  Registry, doc_versions_by_id, retracted, DocRow, doc_from_row, has_version, is_retracted,
}
use ai_chatbot.Platform.Versioning.Candidate.{superseded_in, dropped_docs, candidate_docs}

-- The primary key of the documents.
abbrev pub DistinctDocs : List DocRow → Type 0
DistinctDocs [] = Unit
DistinctDocs (row ∷ rows) = (any (has_version row.doc_version) rows ≡ false) × DistinctDocs rows

-- The row corrects the document.
abbrev pub supersedes_doc : String → DocRow → Bool
supersedes_doc doc row = elim row.supersedes [
  | none ↦ false
  | some old ↦ doc == old && not (old == "")
]

abbrev entries : (DocRow → Bool) → List DocRow → Dict DocumentVersion
entries p rows = map (λ row. (row.doc_version, doc_from_row row)) (keep p rows)

lookup-entries :
    (p : DocRow → Bool) (rows : List DocRow) (doc : String)
    → any (has_version doc) rows ≡ false
    → lookup doc (entries p rows) ≡ none
unfolding lookup
lookup-entries p [] doc h = refl
lookup-entries p (row ∷ rows) doc h = ground (arith, lookup-entries p rows doc)

entries-NodupKeys :
    (p : DocRow → Bool) (rows : List DocRow) → DistinctDocs rows → NodupKeys (entries p rows)
entries-NodupKeys p [] d = tt
entries-NodupKeys p (row ∷ rows) d = elim (Bool-cases (p row)) [
  | inl taken ↦ rw taken (lookup-entries p rows row.doc_version d.0, entries-NodupKeys p rows d.1)
  | inr left ↦ rw left (entries-NodupKeys p rows d.1)
]

contains-superseded_in :
    (p : DocRow → Bool) (rows : List DocRow) (doc : String)
    → contains (superseded_in (entries p rows)) doc
      ≡ any (λ row. p row && supersedes_doc doc row) rows
unfolding superseded_in doc_from_row
contains-superseded_in p [] doc = refl
contains-superseded_in p (row ∷ rows) doc = ground (arith, contains-superseded_in p rows doc)

-- The documents that the added ones correct.
superseded_lem :
    (add : List String) (r : Registry) (doc : String)
    → DistinctDocs r.docs
    → contains (superseded_in (doc_versions_by_id add r)) doc
      ≡ any (λ row. contains add row.doc_version && supersedes_doc doc row) r.docs
unfolding doc_versions_by_id
superseded_lem add r doc d =
    let added : DocRow → Bool = λ row. contains add row.doc_version in
    ap (λ docs. contains (superseded_in docs) doc)
      (of_pairs-NodupKeys (entries added r.docs) (entries-NodupKeys added r.docs d))
    ∙ contains-superseded_in added r.docs doc

contains-versions :
    (ids : List String) (rows : List DocRow) (doc : String)
    → contains
        (map
          (λ row. row.doc_version)
          (keep (λ row. contains ids row.doc_version && is_retracted row) rows))
        doc
      ≡ (contains ids doc && any (λ row. has_version doc row && is_retracted row) rows)
contains-versions ids [] doc = ground arith
contains-versions ids (row ∷ rows) doc = ground (arith, contains-versions ids rows doc)

contains-retracted :
    (ids : List String) (r : Registry) (doc : String)
    → contains (retracted ids r) doc
      ≡ (contains ids doc && any (λ row. has_version doc row && is_retracted row) r.docs)
unfolding retracted
contains-retracted ids r doc = contains-versions ids r.docs doc

-- Where no document version stands twice in the registry, a document is among those of a candidate
-- exactly if it is in the base or added, is not among the removed ones, is superseded by no added
-- document of the registry, and is not retracted in the registry. A document does not supersede
-- another where it names the empty text.
pub contains-candidate_docs :
    (base add remove : List String) (r : Registry) (doc : String)
    → DistinctDocs r.docs
    → contains (candidate_docs base add remove r) doc ≡ (
        (contains base doc || contains add doc)
        && (not (contains remove doc)
            && (not (any (λ row. contains add row.doc_version && supersedes_doc doc row) r.docs)
                && not (any (λ row. has_version doc row && is_retracted row) r.docs))))
unfolding dropped_docs
contains-candidate_docs base add remove r doc d = ground (
  arith,
  contains-sorted_set doc (minus (base ++ add) (dropped_docs base add remove r)),
  contains-minus doc (base ++ add) (dropped_docs base add remove r),
  contains-append doc base add,
  contains-append doc remove
      (superseded_in (doc_versions_by_id add r) ++ retracted (base ++ add) r),
  contains-append doc (superseded_in (doc_versions_by_id add r)) (retracted (base ++ add) r),
  superseded_lem add r doc d,
  contains-retracted (base ++ add) r doc,
)
