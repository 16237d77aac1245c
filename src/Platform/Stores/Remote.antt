-- ===== src/Platform/Stores/Remote.antt =====
-- `S3ObjectStore`, over the S3 client, which is a parameter.
pub mod Lawful
use ai_chatbot.Base.{
  String, Bool, true, false, ◌||◌, Option, none, some, List, [], ◌∷◌, ◌++◌, Result, ok, raise,
  client_error, ◌==◌, string_eq, if◌then◌else◌, contains,
}
use ai_chatbot.Base.Sorting.{sort_by}
use ai_chatbot.Base.State.{M, ◌>>=◌, ◌>>◌, lift, pure, gets}
use ai_chatbot.Platform.Ops.Storage.{object_uri}
use ai_chatbot.Platform.Stores.{ObjectStore, check_key}
use ai_chatbot.Base.Texts.{text_before}

-- What the client answers: a value, or a `ClientError` with its code.
pub data Reply (A : Type 0) : Type 0 where
  reply : A → Reply A
  refusal : String → Reply A

-- The calls of the client that the store makes. A page of a listing may have no `Contents`.
pub record S3Client (S Data : Type 0) : Type 0 where
  pub head_bucket : String → S → Reply (Unit {0}) × S
  pub create_bucket : String → S → Reply (Unit {0}) × S
  pub put_object : String → String → Data → S → Reply (Unit {0}) × S
  pub get_object : String → String → S → Reply Data × S
  pub head_object : String → String → S → Reply (Unit {0}) × S
  pub delete_object : String → String → S → Reply (Unit {0}) × S
  pub list_pages : String → String → S → Reply (List (Option (List String))) × S

-- A refusal is raised.
abbrev pub raised : {A : Type 0} → Reply A → Result A
raised (reply a) = ok a
raised (refusal code) = raise client_error

abbrev pub calling : {S A : Type 0} → (S → Reply A × S) → M S A
calling m s = (raised (m s).0, (m s).1)

-- `item["Key"] for item in page.get("Contents", [])`, over all pages.
unfoldable pub all_keys : List (Option (List String)) → List String
all_keys [] = []
all_keys (none ∷ pages) = all_keys pages
all_keys (some keys ∷ pages) = keys ++ all_keys pages

abbrev pub is_missing : String → Bool
is_missing code = contains ("404" ∷ "NoSuchKey" ∷ "NotFound" ∷ []) code

-- What `exists` makes of the reply of `head_object`.
abbrev pub found_by : Reply (Unit {0}) → Result Bool
found_by (reply _) = ok true
found_by (refusal code) = if is_missing code then ok false else raise client_error

module _ {S Data : Type 0} (C : S3Client S Data) where
  -- The bucket is made where it has no head.
  abbrev pub or_create : String → Reply (Unit {0}) → M S (Unit {0})
  or_create bucket (reply _) s = (ok tt, s)
  or_create bucket (refusal code) s = calling (C.create_bucket bucket) s

  unfoldable pub ensure_bucket : String → M S (Unit {0})
  ensure_bucket bucket s = or_create bucket (C.head_bucket bucket s).0 (C.head_bucket bucket s).1

  unfoldable pub put : String → String → Data → M S String
  unfolding check_key object_uri
  put bucket key bytes =
      lift (check_key key)
      >> (calling (C.put_object bucket key bytes) >> pure (object_uri bucket key))

  unfoldable pub get : String → String → M S Data
  get bucket key = calling (C.get_object bucket key)

  unfoldable pub contains_object : String → String → M S Bool
  contains_object bucket key s =
      (found_by (C.head_object bucket key s).0, (C.head_object bucket key s).1)

  unfoldable pub delete : String → String → M S (Unit {0})
  delete bucket key = calling (C.delete_object bucket key)

  unfoldable pub list_keys : String → String → M S (List String)
  unfolding all_keys sort_by
  list_keys bucket prefix =
      calling (C.list_pages bucket prefix) >>= λ pages. pure (sort_by text_before (all_keys pages))

  abbrev pub remote_store : ObjectStore Data
  remote_store = record {
    State = S;
    ensure_bucket = ensure_bucket;
    put = put;
    get = get;
    contains_object = contains_object;
    delete = delete;
    list_keys = list_keys;
  }
