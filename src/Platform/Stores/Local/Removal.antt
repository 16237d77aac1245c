-- ===== src/Platform/Stores/Local/Removal.antt =====
-- What is deleted from the local store is gone, and what an unsafe key is refused for.
use ai_chatbot.Base.{
  String, true, false, none, [], ◌∷◌, ok, raise, value_error, os_error, if◌then◌else◌, ◌==◌,
  string_eq, any, ◌≡◌, refl, arith, Bool-cases, inl, inr,
}
use ai_chatbot.Base.Dict.{lookup}
use ai_chatbot.Platform.Stores.{is_unsafe, check_key}
use ai_chatbot.Platform.Stores.Local.{
  Files, is_file, put, get, contains_object, delete, unlink, remove,
}
use ai_chatbot.Platform.Stores.Local.Folders.{location, above}
use ai_chatbot.Platform.Stores.Local.Laws.{get_lem, get_unsafe, contains_object_lem}

module _ {Data : Type 0} where
  lookup-remove :
      (p q : String) (fs : Files Data)
      → lookup p (remove q fs) ≡ (if p == q then none else lookup p fs)
  unfolding lookup
  lookup-remove p q [] = ground arith
  lookup-remove p q ((path, node) ∷ fs) = ground (arith, lookup-remove p q fs)

  delete_file :
      (bucket key : String) (fs : Files Data)
      → is_unsafe key ≡ false
      → is_file (lookup (location bucket key) fs) ≡ true
      → delete bucket key fs ≡ (ok tt, remove (location bucket key) fs)
  unfolding delete check_key unlink
  delete_file bucket key fs safe there = rw (safe, there) refl

  delete_missing :
      (bucket key : String) (fs : Files Data)
      → is_unsafe key ≡ false
      → lookup (location bucket key) fs ≡ none
      → any (λ p. is_file (lookup p fs)) (above bucket key) ≡ false
      → delete bucket key fs ≡ (ok tt, fs)
  unfolding delete check_key unlink
  delete_missing bucket key fs safe gone open_ = rw (safe, gone, open_) refl

  get_removed :
      (bucket key b k : String) (fs : Files Data)
      → (location b k == location bucket key) ≡ false
      → (get b k (remove (location bucket key) fs)).0 ≡ (get b k fs).0
  get_removed bucket key b k fs other = elim (Bool-cases (is_unsafe k)) [
    | inl unsafe ↦
        rw (get_unsafe b k (remove (location bucket key) fs) unsafe, get_unsafe b k fs unsafe) refl
    | inr safe ↦
        rw
          (
            get_lem b k (remove (location bucket key) fs) safe,
            get_lem b k fs safe,
            lookup-remove (location b k) (location bucket key) fs,
            other,
          )
          refl
  ]

  -- The deletion of a file under a safe key returns. The object is then gone, a second deletion
  -- changes nothing, and a key at another location gives the result that it gave before, where no
  -- folder above the file is a file.
  pub delete-get :
      (bucket key b k : String) (fs : Files Data)
      → is_unsafe key ≡ false
      → is_file (lookup (location bucket key) fs) ≡ true
      → (location b k == location bucket key) ≡ false
      → any (λ p. is_file (lookup p (remove (location bucket key) fs))) (above bucket key) ≡ false
      → (t : Files Data) × (delete bucket key fs ≡ (ok tt, t))
        × (get bucket key t ≡ (raise os_error, t))
        × (contains_object bucket key t ≡ (ok false, t))
        × (delete bucket key t ≡ (ok tt, t))
        × ((get b k t).0 ≡ (get b k fs).0)
  delete-get bucket key b k fs safe there other open_ =
      let t = remove (location bucket key) fs in
      let gone : lookup (location bucket key) t ≡ none =
        ground (arith, lookup-remove (location bucket key) (location bucket key) fs) in
      (
        t,
        delete_file bucket key fs safe there,
        rw (get_lem bucket key t safe, gone) refl,
        rw (contains_object_lem bucket key t safe, gone) refl,
        delete_missing bucket key t safe gone open_,
        get_removed bucket key b k fs other,
      )

  -- A key that is empty, absolute, or goes up is refused by each operation with a value error, and
  -- nothing changes.
  pub unsafe_lem :
      (bucket key : String) (bytes : Data) (fs : Files Data)
      → is_unsafe key ≡ true
      → (put bucket key bytes fs ≡ (raise value_error, fs))
        × (get bucket key fs ≡ (raise value_error, fs))
        × (contains_object bucket key fs ≡ (raise value_error, fs))
        × (delete bucket key fs ≡ (raise value_error, fs))
  unfolding put get contains_object delete check_key
  unsafe_lem bucket key bytes fs h = (rw h refl, rw h refl, rw h refl, rw h refl)
