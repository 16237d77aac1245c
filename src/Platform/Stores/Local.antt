-- ===== src/Platform/Stores/Local.antt =====
-- `LocalFsObjectStore`. The folder of the store is a dictionary from paths below it to files and
-- folders. A bucket is one component of a path. The file that a put writes first under another name
-- is not there when the put returns, and is left out.
pub mod Folders
pub mod Laws
pub mod Removal
pub mod Listing
pub mod Lawful
use ai_chatbot.Base.{
  String, ◌<>◌, Bool, true, false, Option, none, some, List, [], ◌∷◌, Result, ok, raise, os_error,
  if◌then◌else◌, keep, not, ◌==◌, ◌||◌, string_eq, any,
}
use ai_chatbot.Base.Dict.{Dict, lookup, insert}
use ai_chatbot.Base.Sorting.{sort_by}
use ai_chatbot.Base.State.{M, ◌>>=◌, ◌>>◌, lift, pure}
use ai_chatbot.Base.Texts.{after_prefix, starts_with, text_before}
use ai_chatbot.Platform.Ops.Storage.{object_uri}
use ai_chatbot.Platform.Stores.{ObjectStore, parts_of, check_key}

pub data Node (Data : Type 0) : Type 0 where
  folder : Node Data
  file : Data → Node Data

-- A path below another one.
abbrev pub below : String → String → String
below path part = path <> ("/" <> part)

unfoldable pub locate : String → List String → String
locate path [] = path
locate path (part ∷ parts) = locate (below path part) parts

-- The folders that hold the file at these components.
unfoldable pub folders_above : String → List String → List String
folders_above path [] = []
folders_above path (part ∷ parts) = path ∷ folders_above (below path part) parts

abbrev pub Files : Type 0 → Type 0
Files Data = Dict (Node Data)

module _ {Data : Type 0} where
  abbrev pub is_file : Option (Node Data) → Bool
  is_file (some (file _)) = true
  is_file _ = false

  abbrev pub is_folder : Option (Node Data) → Bool
  is_folder (some folder) = true
  is_folder _ = false

  -- `path.mkdir(exist_ok=True)` where the parent is a folder.
  unfoldable pub make_folder : String → M (Files Data) (Unit {0})
  unfolding lookup insert
  make_folder path fs = elim (lookup path fs) [
    | none ↦ (ok tt, insert path folder fs)
    | some node ↦ elim node [ folder ↦ (ok tt, fs) | file _ ↦ (raise os_error, fs) ]
  ]

  -- `path.mkdir(parents=True, exist_ok=True)`, the outermost folder first.
  unfoldable pub make_folders : List String → M (Files Data) (Unit {0})
  unfolding make_folder
  make_folders [] fs = (ok tt, fs)
  make_folders (path ∷ paths) fs = (make_folder path >> make_folders paths) fs

  -- `os.replace(tmp, path)`
  unfoldable pub replace_file : String → Data → M (Files Data) (Unit {0})
  unfolding lookup insert
  replace_file path bytes fs =
      if is_folder (lookup path fs)
      then (raise os_error, fs)
      else (ok tt, insert path (file bytes) fs)

  unfoldable pub ensure_bucket : String → M (Files Data) (Unit {0})
  unfolding make_folder
  ensure_bucket bucket = make_folder bucket

  unfoldable pub put : String → String → Data → M (Files Data) String
  unfolding check_key parts_of locate folders_above make_folders replace_file object_uri
  put bucket key bytes =
      lift (check_key key)
      >> (make_folders (folders_above bucket (parts_of key))
          >> (replace_file (locate bucket (parts_of key)) bytes >> pure (object_uri bucket key)))

  abbrev pub bytes_of : Option (Node Data) → Result Data
  bytes_of (some (file bytes)) = ok bytes
  bytes_of _ = raise os_error

  unfoldable pub get : String → String → M (Files Data) Data
  unfolding check_key parts_of locate lookup
  get bucket key =
      lift (check_key key) >> λ fs. (bytes_of (lookup (locate bucket (parts_of key)) fs), fs)

  unfoldable pub contains_object : String → String → M (Files Data) Bool
  unfolding check_key parts_of locate lookup
  contains_object bucket key =
      lift (check_key key) >> λ fs. (ok (is_file (lookup (locate bucket (parts_of key)) fs)), fs)

  abbrev pub remove : String → Files Data → Files Data
  remove path = keep (λ entry. not (entry.0 == path))

  -- `path.unlink(missing_ok=True)`, where `above` are the folders that hold it: a path through a file
  -- is an error that is not excused.
  unfoldable pub unlink : List String → String → M (Files Data) (Unit {0})
  unfolding lookup
  unlink above path fs =
      if is_file (lookup path fs)
      then (ok tt, remove path fs)
      else if is_folder (lookup path fs) || any (λ p. is_file (lookup p fs)) above
      then (raise os_error, fs)
      else (ok tt, fs)

  unfoldable pub delete : String → String → M (Files Data) (Unit {0})
  unfolding check_key parts_of locate folders_above unlink
  delete bucket key =
      lift (check_key key)
      >> unlink (folders_above bucket (parts_of key)) (locate bucket (parts_of key))

  -- The path of a file below the bucket, if the entry is one.
  abbrev pub key_of : String → String × Node Data → Option String
  key_of bucket (path, folder) = none
  key_of bucket (path, file _) = after_prefix (bucket <> "/") path

  unfoldable pub keys_below : String → Files Data → List String
  unfolding after_prefix
  keys_below bucket [] = []
  keys_below bucket (entry ∷ fs) =
      let rest = keys_below bucket fs in
      elim (key_of bucket entry) [ none ↦ rest | some key ↦ key ∷ rest ]

  unfoldable pub list_keys : String → String → M (Files Data) (List String)
  unfolding lookup keys_below sort_by after_prefix
  list_keys bucket prefix fs = (
    ok (
        if is_folder (lookup bucket fs)
        then sort_by text_before (keep (starts_with prefix) (keys_below bucket fs))
        else []),
    fs,
  )

  abbrev pub local_store : ObjectStore Data
  local_store = record {
    State = Files Data;
    ensure_bucket = ensure_bucket;
    put = put;
    get = get;
    contains_object = contains_object;
    delete = delete;
    list_keys = list_keys;
  }
