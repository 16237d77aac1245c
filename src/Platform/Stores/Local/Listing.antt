-- ===== src/Platform/Stores/Local/Listing.antt =====
-- The keys that the local store lists are those of the files of the bucket.
use Prim.Native.String.append
use Prim.Native.String.{[] as []ˢ, ◌∷◌ as ◌∷ˢ◌}
use ai_chatbot.Base.{
  String, ◌<>◌, Bool, true, false, ◌&&◌, ◌||◌, none, some, List, [], ◌∷◌, ok, ◌==◌, string_eq,
  contains, keep, contains-keep, ◌≡◌, refl, ap, ◌∙◌, arith, Option-cases, inl, inr,
}
use ai_chatbot.Base.Dict.{lookup, NodupKeys}
use ai_chatbot.Base.Sorting.{sort_by, place_by}
use ai_chatbot.Base.Texts.{after_prefix, after_prefix-append, starts_with, text_before}
use ai_chatbot.Platform.Stores.Local.{
  Node, folder, file, Files, is_file, is_folder, keys_below, list_keys,
}

module _ (before : String → String → Bool) where
  contains-place_by :
      (a x : String) (ys : List String)
      → contains (place_by before x ys) a ≡ (a == x || contains ys a)
  unfolding place_by
  contains-place_by a x [] = refl
  contains-place_by a x (y ∷ ys) = ground (arith, contains-place_by a x ys)

  contains-sort_by :
      (a : String) (xs : List String) → contains (sort_by before xs) a ≡ contains xs a
  unfolding sort_by
  contains-sort_by a [] = refl
  contains-sort_by a (x ∷ xs) =
      contains-place_by a x (sort_by before xs) ∙ ap (λ b. a == x || b) (contains-sort_by a xs)

after_prefix-inv : (p s t : String) → after_prefix p s ≡ some t → s ≡ p <> t
unfolding after_prefix
after_prefix-inv []ˢ s t h = rw (append.nil t) cc
after_prefix-inv (c ∷ˢ p) []ˢ t h = cc
after_prefix-inv (c ∷ˢ p) (d ∷ˢ s) t h =
    rw (append.cons c p t) (ground (arith, after_prefix-inv p s t))

-- The path of a key below the bucket.
abbrev pub full : String → String → String
full bucket key = (bucket <> "/") <> key

full-inv :
    (bucket key path : String)
    → (full bucket key == path)
      ≡ (elim (after_prefix (bucket <> "/") path) [ none ↦ false | some k ↦ key == k ])
full-inv bucket key path = elim (Option-cases (after_prefix (bucket <> "/") path)) [
  | inl none_ ↦ rw none_ (ground (arith, after_prefix-append (bucket <> "/") key))
  | inr (k, some_) ↦
      let at = after_prefix-inv (bucket <> "/") path k some_ in
      rw some_ (
        ground (
          arith,
          at,
          after_prefix-append (bucket <> "/") key,
          after_prefix-append (bucket <> "/") k,
        ))
]

module _ {Data : Type 0} where
  keys_below-cons :
      (bucket key path : String) (node : Node Data) (fs : Files Data)
      → contains (keys_below bucket ((path, node) ∷ fs)) key
        ≡ (full bucket key == path && is_file (some node) || contains (keys_below bucket fs) key)
  unfolding keys_below
  keys_below-cons bucket key path folder fs = ground arith
  keys_below-cons bucket key path (file bytes) fs = ground (arith, full-inv bucket key path)

  contains-keys_below :
      (bucket key : String) (fs : Files Data)
      → NodupKeys fs
      → contains (keys_below bucket fs) key ≡ is_file (lookup (full bucket key) fs)
  unfolding keys_below lookup
  contains-keys_below bucket key [] h = refl
  contains-keys_below bucket key ((path, node) ∷ fs) h =
      ground (arith, keys_below-cons bucket key path node fs, contains-keys_below bucket key fs h.1)

  -- The listing of a bucket whose folder is there returns, changes nothing, and holds exactly the
  -- keys with the prefix that have a file below the bucket, where no path stands twice.
  pub contains-list_keys :
      (bucket prefix : String) (fs : Files Data)
      → NodupKeys fs
      → is_folder (lookup bucket fs) ≡ true
      → (keys : List String) × (list_keys bucket prefix fs ≡ (ok keys, fs))
        × ((key : String)
            → contains keys key ≡ (is_file (lookup (full bucket key) fs) && starts_with prefix key))
  unfolding list_keys
  contains-list_keys bucket prefix fs h open_ =
      let kept = keep (starts_with prefix) (keys_below bucket fs) in
      (
        sort_by text_before kept,
        rw open_ refl,
        λ key.
            contains-sort_by text_before key kept
            ∙ contains-keep (starts_with prefix) key (keys_below bucket fs)
            ∙ ap (λ b. b && starts_with prefix key) (contains-keys_below bucket key fs h),
      )
