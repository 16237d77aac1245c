-- ===== src/Tests/Storing.antt =====
-- A local store with one bucket, and an export into it. A table is written as one word.
use ai_chatbot.Base.{String, true, false, List, [], ◌∷◌, ◌&&◌, ◌≡◌, refl, ok, string_eq, contains}
use ai_chatbot.Base.Dict.{lookup}
use ai_chatbot.Base.Texts.{starts_with, after_prefix}
use ai_chatbot.Platform.Ops.Storage.{object_uri}
use ai_chatbot.Platform.Stores.{IsLawful, parts_of}
use ai_chatbot.Platform.Stores.Local.{
  Files, folder, file, is_file, folders_above, locate, put, get, contains_object, list_keys,
  local_store,
}
use ai_chatbot.Platform.Stores.Local.Laws.{put-get}
use ai_chatbot.Platform.Stores.Local.Listing.{full, contains-list_keys}
use ai_chatbot.Platform.Stores.Local.Lawful.{local-IsLawful}
use ai_chatbot.Platform.Exports.{
  Parquet, Export, exports_bucket, export_key, export_of, export_rows, read_export,
  export_rows-read_export,
}

abbrev files : Files String
files = ("raw", folder) ∷ ("raw/ab", folder) ∷ ("raw/ab/old.pdf", file "old") ∷ []

put-get_example :
    (t : Files String) × (put "raw" "ab/new.pdf" "new" files
      ≡ (ok (object_uri "raw" "ab/new.pdf"), t))
    × (get "raw" "ab/new.pdf" t ≡ (ok "new", t))
    × (contains_object "raw" "ab/new.pdf" t ≡ (ok true, t))
    × ((get "raw" "ab/old.pdf" t).0 ≡ (get "raw" "ab/old.pdf" files).0)
unfolding ai_chatbot.Platform.Stores.is_unsafe string_eq after_prefix folders_above lookup locate
put-get_example = put-get "raw" "ab/new.pdf" "raw" "ab/old.pdf" "new" files refl refl

contains-list_keys_example :
    (keys : List String) × (list_keys "raw" "ab/" files ≡ (ok keys, files))
    × ((key : String)
        → contains keys key ≡ (is_file (lookup (full "raw" key) files) && starts_with "ab/" key))
unfolding lookup string_eq
contains-list_keys_example = contains-list_keys "raw" "ab/" files (refl, (refl, (refl, tt))) refl

local-IsLawful_example : IsLawful (local_store {Data = String})
local-IsLawful_example = local-IsLawful {Data = String}

abbrev parquet : Parquet String String
parquet = record {
  write_table = λ rows. "table";
  read_table = λ bytes. ok ("row" ∷ []);
  sha256_hex = λ bytes. bytes;
}

abbrev exported : Export
exported = export_of parquet "eval" ("row" ∷ [])

abbrev exported_files : Files String
exported_files =
    ("exports", folder)
    ∷ ("exports/eval", folder)
    ∷ ("exports/eval/table.parquet", file "table")
    ∷ []

fresh :
    (contains_object {Data = String} exports_bucket (export_key parquet "eval" ("row" ∷ [])) []).0
    ≡ ok false
unfolding contains_object string_eq after_prefix export_key
fresh = refl

export-row : export_rows parquet local_store "eval" ("row" ∷ []) [] ≡ (ok exported, exported_files)
unfolding export_rows contains_object string_eq after_prefix put
export-row = refl

export_rows-read_export_example :
    (exported ≡ exported)
    × (read_export parquet local_store exported.uri exported_files
        ≡ (ok ("row" ∷ []), exported_files))
    × (export_rows parquet local_store "eval" ("row" ∷ []) exported_files
        ≡ (ok exported, exported_files))
export_rows-read_export_example =
    export_rows-read_export parquet local_store "eval" ("row" ∷ []) [] exported_files exported
      local-IsLawful refl fresh export-row
