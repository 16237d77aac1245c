-- ===== src/Platform/Stores/Local/Laws.antt =====
-- What is put into the local store is got from it, and nothing else changes.
use ai_chatbot.Base.{
  String, Bool, true, false, not, ◌&&◌, some, ok, raise, value_error, ◌==◌, string_eq, ◌≡◌, refl,
  arith, Bool-cases, inl, inr,
}
use ai_chatbot.Base.Dict.{lookup, insert, lookup-insert}
use ai_chatbot.Platform.Ops.Storage.{object_uri}
use ai_chatbot.Platform.Stores.{parts_of, is_unsafe, check_key}
use ai_chatbot.Platform.Stores.Local.{
  file, Files, is_file, is_folder, bytes_of, make_folders, replace_file, put, get, contains_object,
}
use ai_chatbot.Platform.Stores.Local.Folders.{
  folders_above-apart, make_folders-files, make_folders-other, make_folders-ok, is_open, location,
  above,
}

module _ {Data : Type 0} where
  -- A safe key that names no folder, below no file, takes what is put there.
  abbrev pub is_free : String → String → Files Data → Bool
  is_free bucket key fs =
      not (is_unsafe key)
      && is_open (above bucket key) fs
      && not (is_folder (lookup (location bucket key) fs))

  put_lem_state :
      (bucket key : String) (bytes : Data) (fs : Files Data)
      → is_free bucket key fs ≡ true
      → put bucket key bytes fs ≡ (
        ok (object_uri bucket key),
        insert (location bucket key) (file bytes) (make_folders (above bucket key) fs).1,
      )
  unfolding put check_key replace_file
  put_lem_state bucket key bytes fs h =
      let made = make_folders-ok (above bucket key) fs (ground arith) in
      let same =
        make_folders-other (location bucket key) (above bucket key) fs
          (folders_above-apart (location bucket key) bucket (parts_of key) (omega arith)) in
      let safe : is_unsafe key ≡ false = ground arith in
      let plain : is_folder (lookup (location bucket key) fs) ≡ false = ground arith in
      rw (safe, made, same, plain) refl

  pub get_lem :
      (bucket key : String) (fs : Files Data)
      → is_unsafe key ≡ false
      → get bucket key fs ≡ (bytes_of (lookup (location bucket key) fs), fs)
  unfolding get check_key
  get_lem bucket key fs h = rw h refl

  pub get_unsafe :
      (bucket key : String) (fs : Files Data)
      → is_unsafe key ≡ true
      → get bucket key fs ≡ (raise value_error, fs)
  unfolding get check_key
  get_unsafe bucket key fs h = rw h refl

  pub contains_object_lem :
      (bucket key : String) (fs : Files Data)
      → is_unsafe key ≡ false
      → contains_object bucket key fs ≡ (ok (is_file (lookup (location bucket key) fs)), fs)
  unfolding contains_object check_key
  contains_object_lem bucket key fs h = rw h refl

  -- A key at another location gives what it gave before.
  get_other :
      (bucket key b k : String) (bytes : Data) (fs : Files Data)
      → (location b k == location bucket key) ≡ false
      → (get b k
          (insert (location bucket key) (file bytes) (make_folders (above bucket key) fs).1)).0
        ≡ (get b k fs).0
  get_other bucket key b k bytes fs other = elim (Bool-cases (is_unsafe k)) [
    | inl unsafe ↦ rw (get_unsafe b k _ unsafe, get_unsafe b k fs unsafe) refl
    | inr safe ↦
        rw
          (
            get_lem b k _ safe,
            get_lem b k fs safe,
            lookup-insert (location b k) (location bucket key) (file bytes)
                (make_folders (above bucket key) fs).1,
            other,
          )
          (make_folders-files (location b k) (above bucket key) fs)
  ]

  -- What is put under a safe key, that names no folder and goes through no file, is put without an
  -- error and got again, and the object exists. A key at another location gives the result that it
  -- gave before.
  pub put-get :
      (bucket key b k : String) (bytes : Data) (fs : Files Data)
      → is_free bucket key fs ≡ true
      → (location b k == location bucket key) ≡ false
      → (t : Files Data) × (put bucket key bytes fs ≡ (ok (object_uri bucket key), t))
        × (get bucket key t ≡ (ok bytes, t))
        × (contains_object bucket key t ≡ (ok true, t))
        × ((get b k t).0 ≡ (get b k fs).0)
  put-get bucket key b k bytes fs h other =
      let there = (make_folders (above bucket key) fs).1 in
      let t = insert (location bucket key) (file bytes) there in
      let safe : is_unsafe key ≡ false = ground arith in
      let found : lookup (location bucket key) t ≡ some (file bytes) =
        ground
          (arith, lookup-insert (location bucket key) (location bucket key) (file bytes) there) in
      (
        t,
        put_lem_state bucket key bytes fs h,
        rw (get_lem bucket key t safe, found) refl,
        rw (contains_object_lem bucket key t safe, found) refl,
        get_other bucket key b k bytes fs other,
      )
