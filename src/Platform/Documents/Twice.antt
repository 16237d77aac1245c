-- ===== src/Platform/Documents/Twice.antt =====
-- The registration of a file that was registered before.
use ai_chatbot.Base.{
  ok_injective, ℕ, String, Bool, true, false, ◌&&◌, not, none, some, [], ◌∷◌, ◌≡◌, refl, sym, ap,
  ◌∙◌, arith, ok, Result-cases, Bool-cases, Option-cases, inl, inr, ◌==◌, string_eq,
}
use ai_chatbot.Base.State.{>>=-eq-ok, >>=-keeps, pure, reading}
use ai_chatbot.Base.Table.{find?, find?-append}
use ai_chatbot.Contracts.Enums.{is_external_exercise}
use ai_chatbot.Contracts.KnowledgeBase.{DocumentVersion, schema_version_now}
use ai_chatbot.Platform.Registry.{
  Registry, find_doc_version, latest_doc_version, add_doc_version, doc_to_row, doc_from_row,
}
use ai_chatbot.Platform.Documents.{
  Runtime, ObjectStore, Submission, is_given, make_doc_id, raw_key, raw_bucket, new_document,
  put_once, add_document, register_document, on_registry, on_store,
}

-- A document version that was added is found by its document and its hash.
find_doc_version-add :
    (doc : DocumentVersion) (now : ℕ) (r : Registry) (a : Unit {0})
    → doc.schema_version ≡ schema_version_now
    → find_doc_version doc.doc_id doc.sha256 r ≡ none
    → (add_doc_version doc now r).0 ≡ ok a
    → find_doc_version doc.doc_id doc.sha256 (add_doc_version doc now r).1 ≡ some doc
unfolding find_doc_version add_doc_version doc_to_row doc_from_row find?
find_doc_version-add doc now r a v f h = ground (
  arith,
  v,
  find?-append (λ row. row.doc_id == doc.doc_id && row.sha256 == doc.sha256) r.docs
      (doc_to_row doc now ∷ []),
)

module _ {Data Store : Type 0} (P : Runtime Data) (O : ObjectStore Store Data) where
  put_once-registry :
      (key : String) (bytes : Data) (known : Bool) (s : Store × Registry)
      → (put_once P O key bytes known s).1.1 ≡ s.1
  put_once-registry key bytes true s = refl
  put_once-registry key bytes false s =
      >>=-keeps (λ u. u.1 ≡ s.1) (on_store P O (O.put raw_bucket key bytes)) (λ _. pure tt) s refl
        (λ _ _. refl)

  add_document_lem :
      (up : Submission Data) (doc_id : String) (now : ℕ) (s t : Store × Registry)
      (doc : DocumentVersion)
      → find_doc_version doc_id (P.sha256_hex up.data_) s.1 ≡ none
      → add_document P O up doc_id (P.sha256_hex up.data_) now s ≡ (ok doc, t)
      → find_doc_version doc_id (P.sha256_hex up.data_) t.1 ≡ some doc
  unfolding add_document new_document
  add_document_lem up doc_id now s t doc f h =
      let hash = P.sha256_hex up.data_ in
      let (known, _, h1) =
        >>=-eq-ok (reading (λ u. O.contains_object raw_bucket (raw_key P hash up.filename) u.0)) _ s
          h in
      let (_, _, h2) =
        >>=-eq-ok (put_once P O (raw_key P hash up.filename) up.data_ known) _ s h1 in
      let here = (put_once P O (raw_key P hash up.filename) up.data_ known s).1 in
      let same = put_once-registry (raw_key P hash up.filename) up.data_ known s in
      let document = new_document P up doc_id hash (latest_doc_version doc_id here.1) in
      let (a, added, h3) = >>=-eq-ok (on_registry P O (add_doc_version document now)) _ here h2 in
      rw (sym (ap (λ p. p.1) h3), sym (ok_injective (ap (λ p. p.0) h3)))
        (find_doc_version-add document now here.1 a refl (rw same f) added)

  register_found :
      (up : Submission Data) (now : ℕ) (t : Store × Registry) (doc_id : String)
      (doc : DocumentVersion)
      → (is_external_exercise up.source_type && not (is_given up.licence)) ≡ false
      → make_doc_id P up.course_code up.source_id ≡ ok doc_id
      → find_doc_version doc_id (P.sha256_hex up.data_) t.1 ≡ some doc
      → register_document P O up now t ≡ (ok doc, t)
  unfolding register_document
  register_found up now t doc_id doc g i f = rw (register_document, g, i, f) refl

  register_new :
      (up : Submission Data) (now : ℕ) (s : Store × Registry) (doc_id : String)
      → (is_external_exercise up.source_type && not (is_given up.licence)) ≡ false
      → make_doc_id P up.course_code up.source_id ≡ ok doc_id
      → find_doc_version doc_id (P.sha256_hex up.data_) s.1 ≡ none
      → register_document P O up now s ≡ add_document P O up doc_id (P.sha256_hex up.data_) now s
  unfolding register_document
  register_new up now s doc_id g i f = rw (register_document, g, i, f) refl

  -- What a registration that returned had checked.
  register_checked :
      (up : Submission Data) (now : ℕ) (s t : Store × Registry) (doc : DocumentVersion)
      → register_document P O up now s ≡ (ok doc, t)
      → ((is_external_exercise up.source_type && not (is_given up.licence)) ≡ false)
        × ((doc_id : String) × (make_doc_id P up.course_code up.source_id ≡ ok doc_id))
  unfolding register_document
  register_checked up now s t doc h =
      elim (Bool-cases (is_external_exercise up.source_type && not (is_given up.licence))) [
        | inl e ↦ absurd (ground arith)
        | inr e ↦ elim (Result-cases (make_doc_id P up.course_code up.source_id)) [
          | inl (id, i) ↦ (e, (id, i))
          | inr (x, i) ↦ absurd (ground arith)
        ]
      ]

  -- A file that was registered is found when it is registered again: the same document version is
  -- returned, and neither the store nor the registry changes.
  pub register_document-twice :
      (up : Submission Data) (now later : ℕ) (s t : Store × Registry) (doc : DocumentVersion)
      → register_document P O up now s ≡ (ok doc, t)
      → register_document P O up later t ≡ (ok doc, t)
  register_document-twice up now later s t doc h =
      let (g, (doc_id, i)) = register_checked up now s t doc h in
      elim (Option-cases (find_doc_version doc_id (P.sha256_hex up.data_) s.1)) [
        | inl f ↦ register_found up later t doc_id doc g i (
            add_document_lem up doc_id now s t doc f (sym (register_new up now s doc_id g i f) ∙ h))
        | inr (old, f) ↦
            let same = sym (register_found up now s doc_id old g i f) ∙ h in
            register_found up later t doc_id doc g i
              (rw (sym (ap (λ p. p.1) same)) (f ∙ ap some (ok_injective (ap (λ p. p.0) same))))
      ]
