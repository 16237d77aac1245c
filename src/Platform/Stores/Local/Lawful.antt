-- ===== src/Platform/Stores/Local/Lawful.antt =====
-- The local store keeps the contract of the port.
use ai_chatbot.Base.{
  ok_injective, String, true, false, some, ok, raise, value_error, ◌≡◌, refl, ap, sym, ◌∙◌, arith,
  Bool-cases, inl, inr,
}
use ai_chatbot.Base.Dict.{lookup, lookup-insert}
use ai_chatbot.Base.State.{◌>>◌, pure, >>=-eq-ok, raise_ne_ok}
use ai_chatbot.Platform.Ops.Storage.{object_uri}
use ai_chatbot.Platform.Stores.{IsLawful, is_unsafe, check_key}
use ai_chatbot.Platform.Stores.Local.{
  Files, file, make_folders, replace_file, put, contains_object, local_store,
}
use ai_chatbot.Platform.Stores.Local.Folders.{location, above}
use ai_chatbot.Platform.Stores.Local.Laws.{get_lem, contains_object_lem}
use ai_chatbot.Platform.Stores.Local.Removal.{unsafe_lem}

module _ {Data : Type 0} where
  replace_file-found :
      (path : String) (bytes : Data) (fs : Files Data)
      → (replace_file path bytes fs).0 ≡ ok tt
      → lookup path (replace_file path bytes fs).1 ≡ some (file bytes)
  unfolding replace_file
  replace_file-found path bytes fs h = ground (arith, lookup-insert path path (file bytes) fs)

  -- What a put that returns has done.
  put_inv :
      (bucket key : String) (bytes : Data) (s t : Files Data) (uri : String)
      → put bucket key bytes s ≡ (ok uri, t)
      → (is_unsafe key ≡ false)
        × (uri ≡ object_uri bucket key)
        × (lookup (location bucket key) t ≡ some (file bytes))
  unfolding put check_key
  put_inv bucket key bytes s t uri h = elim (Bool-cases (is_unsafe key)) [
    | inl unsafe ↦
        absurd (raise_ne_ok (ap (λ p. p.0) (sym (unsafe_lem bucket key bytes s unsafe).0 ∙ h)))
    | inr safe ↦
        let (_, _, rest) =
          >>=-eq-ok (make_folders (above bucket key))
            (λ _. replace_file (location bucket key) bytes >> pure (object_uri bucket key)) s
            (rw safe at h) in
        let there = (make_folders (above bucket key) s).1 in
        let (_, replaced, done) =
          >>=-eq-ok (replace_file (location bucket key) bytes) (λ _. pure (object_uri bucket key))
            there rest in
        let found = replace_file-found (location bucket key) bytes there replaced in
        (safe, ok_injective (ap (λ p. p.0) (sym done)), rw (ap (λ p. p.1) done) at found)
  ]

  contains_object_unsafe :
      (bucket key : String) (s : Files Data)
      → is_unsafe key ≡ true
      → contains_object bucket key s ≡ (raise value_error, s)
  unfolding contains_object check_key
  contains_object_unsafe bucket key s h = rw h refl

  contains_object-keeps :
      (bucket key : String) (s : Files Data) → (contains_object bucket key s).1 ≡ s
  contains_object-keeps bucket key s = elim (Bool-cases (is_unsafe key)) [
    | inl unsafe ↦ ap (λ p. p.1) (contains_object_unsafe bucket key s unsafe)
    | inr safe ↦ ap (λ p. p.1) (contains_object_lem bucket key s safe)
  ]

  -- The local store keeps the contract of the port: a put that returns gives the uri of the object,
  -- which then exists and is got as it was put, and the test of existence changes nothing.
  pub local-IsLawful : IsLawful (local_store {Data = Data})
  local-IsLawful = record {
    contains_keeps = contains_object-keeps;
    put_uri = λ bucket key bytes s t uri h. (put_inv bucket key bytes s t uri h).1;
    put_get = λ bucket key bytes s t uri h.
        let (safe, _, found) = put_inv bucket key bytes s t uri h in
        rw (get_lem bucket key t safe, found) refl;
    put_contains = λ bucket key bytes s t uri h.
        let (safe, _, found) = put_inv bucket key bytes s t uri h in
        rw (contains_object_lem bucket key t safe, found) refl;
  }
