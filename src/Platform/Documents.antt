-- ===== src/Platform/Documents.antt =====
-- libs/platform/src/chatbot_platform/documents.py, and the ids of documents from
-- libs/contracts/src/chatbot_contracts/ids.py. Parameters: the object store, the hash, and what
-- Python's library does on texts and paths.
pub mod Twice
use Prim.Native.String.{[] as []ˢ, ◌∷◌ as ◌∷ˢ◌}
use ai_chatbot.Base.{
  ℕ, zero, suc, String, ◌<>◌, Bool, true, false, ◌&&◌, not, Option, none, some, Result, ok, raise,
  versioning, value_error, if◌then◌else◌, ◌==◌, string_eq,
}
use mathlib.Core.Option
use ai_chatbot.Base.State.{M, ◌>>=◌, ◌>>◌, pure, gets, reading, guard}
use ai_chatbot.Contracts.Enums.{SourceType, is_external_exercise}
use ai_chatbot.Contracts.KnowledgeBase.{DocumentVersion, schema_version_now}
use ai_chatbot.Platform.Registry.{
  Registry, find_doc_version, latest_doc_version, add_doc_version, retract,
}

-- The library functions that the registration calls, over the type `Data` of bytes.
pub record Runtime (Data : Type 0) : Type 0 where
  pub sha256_hex : Data → String
  -- The substitution of `_slug`, up to its check for an empty text.
  pub slug_text : String → String
  -- `PurePath(filename).suffix.lower().lstrip(".")`
  pub suffix : String → String

-- The part of the protocol `ObjectStore` that the registration calls.
pub record ObjectStore (Store Data : Type 0) : Type 0 where
  pub contains_object : String → String → Store → Result Bool
  pub put : String → String → Data → M Store String

pub record Submission (Data : Type 0) : Type 0 where
  pub data_ : Data
  pub filename : String
  pub course_code : String
  pub source_id : String
  pub source_type : SourceType
  pub licence : Option String
  pub source_url : Option String
  pub producer : String

abbrev pub raw_bucket : String
raw_bucket = "raw"

-- `text[:n]`
abbrev pub take_text : ℕ → String → String
take_text zero text = ""
take_text (suc n) []ˢ = ""
take_text (suc n) (c ∷ˢ text) = c ∷ˢ take_text n text

abbrev pub is_given : Option String → Bool
is_given none = false
is_given (some text) = not (text == "")

module _ {Data : Type 0} (P : Runtime Data) where
  unfoldable pub slug : String → Result String
  slug value = if P.slug_text value == "" then raise value_error else ok (P.slug_text value)

  unfoldable pub make_doc_id : String → String → Result String
  unfolding slug
  make_doc_id course_code source_id = elim (slug course_code) [
    | raise e ↦ raise e
    | ok course ↦ elim (slug source_id) [
      | raise e ↦ raise e
      | ok source ↦ ok (course <> ("/" <> source))
    ]
  ]

  unfoldable pub make_doc_version : String → String → String
  make_doc_version doc_id sha256 = doc_id <> ("@" <> take_text 12 sha256)

  abbrev pub extension : String → String
  extension filename = if P.suffix filename == "" then "bin" else P.suffix filename

  unfoldable pub raw_key : String → String → String
  raw_key sha256 filename = take_text 2 sha256 <> ("/" <> (sha256 <> ("." <> extension filename)))

  -- The record of a new document version.
  unfoldable pub new_document :
      Submission Data → String → String → Option DocumentVersion → DocumentVersion
  unfolding make_doc_version raw_key
  new_document up doc_id sha256 previous = record {
    schema_version = schema_version_now;
    producer = up.producer;
    doc_id = doc_id;
    doc_version = make_doc_version doc_id sha256;
    sha256 = sha256;
    source_type = up.source_type;
    course_code = up.course_code;
    source_id = up.source_id;
    raw_uri = "s3://" <> (raw_bucket <> ("/" <> raw_key sha256 up.filename));
    licence = up.licence;
    source_url = up.source_url;
    page_count = none;
    supersedes = Option.map (λ document. document.doc_version) previous;
  }

  module _ {Store : Type 0} (O : ObjectStore Store Data) where
    abbrev pub on_store : {A : Type 0} → M Store A → M (Store × Registry) A
    on_store m s = ((m s.0).0, ((m s.0).1, s.1))

    abbrev pub on_registry : {A : Type 0} → M Registry A → M (Store × Registry) A
    on_registry m s = ((m s.1).0, (s.0, (m s.1).1))

    abbrev pub put_once : String → Data → Bool → M (Store × Registry) (Unit {0})
    put_once key bytes true = pure tt
    put_once key bytes false = on_store (O.put raw_bucket key bytes) >>= λ _. pure tt

    unfoldable pub add_document :
        Submission Data → String → String → ℕ → M (Store × Registry) DocumentVersion
    unfolding new_document raw_key
    add_document up doc_id sha256 now = do
      known ← reading (λ s. O.contains_object raw_bucket (raw_key sha256 up.filename) s.0)
      put_once (raw_key sha256 up.filename) up.data_ known
      previous ← gets (λ s. latest_doc_version doc_id s.1)
      document ← gets (λ _. new_document up doc_id sha256 previous)
      on_registry (add_doc_version document now)
      pure document

    unfoldable pub register_document : Submission Data → ℕ → M (Store × Registry) DocumentVersion
    unfolding make_doc_id add_document
    register_document up now = do
      guard (not (is_external_exercise up.source_type && not (is_given up.licence))) versioning
      doc_id ← reading (λ _. make_doc_id up.course_code up.source_id)
      existing ← gets (λ s. find_doc_version doc_id (P.sha256_hex up.data_) s.1)
      elim existing [
        | some document ↦ pure document
        | none ↦ add_document up doc_id (P.sha256_hex up.data_) now
      ]

unfoldable pub retract_document : String → ℕ → M Registry (Unit {0})
retract_document doc_version now = retract doc_version now
