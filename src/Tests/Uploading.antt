-- ===== src/Tests/Uploading.antt =====
-- The registration of one sample file, twice. The store counts the objects that were put.
use ai_chatbot.Base.{ℕ, ◌+◌, String, false, none, ◌≡◌, refl, ok, string_eq, nat_eq}
use ai_chatbot.Contracts.Enums.{lecture_note}
use ai_chatbot.Contracts.KnowledgeBase.{DocumentVersion}
use ai_chatbot.Platform.Registry.{Registry, find_doc_version, latest_doc_version, add_doc_version}
use ai_chatbot.Platform.Documents.{
  Runtime, ObjectStore, Submission, new_document, register_document,
}
use ai_chatbot.Platform.Documents.Twice.{register_document-twice}
use ai_chatbot.Tests.Sample.{registry}

abbrev runtime : Runtime String
runtime = record { sha256_hex = λ text. text; slug_text = λ text. text; suffix = λ _. "pdf" }

abbrev store : ObjectStore ℕ String
store = record { contains_object = λ _ _ _. ok false; put = λ _ _ _ n. (ok "uri", n + 1) }

abbrev submission : Submission String
submission = record {
  data_ = "content";
  filename = "notes.pdf";
  course_code = "course";
  source_id = "notes";
  source_type = lecture_note;
  licence = none;
  source_url = none;
  producer = "platform";
}

abbrev document : DocumentVersion
document = new_document runtime submission "course/notes" "content" none

abbrev registered : ℕ × Registry
registered = (register_document runtime store submission 5 (0, registry)).1

register-notes :
    register_document runtime store submission 5 (0, registry) ≡ (ok document, registered)
unfolding register_document string_eq find_doc_version add_doc_version latest_doc_version
register-notes = refl

register_document-twice_example :
    register_document runtime store submission 8 registered ≡ (ok document, registered)
register_document-twice_example =
    register_document-twice runtime store submission 5 8 (0, registry) registered document
      register-notes
