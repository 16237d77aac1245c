-- ===== src/Platform/Ops/Storage.antt =====
-- libs/platform/src/chatbot_platform/storage.py: object uris, and the part of the protocol
-- `ObjectStore` that the sweeps call.
use Prim.Native.Char.{Char}
use Prim.Native.String.append
use Prim.Native.String.{[] as []ˢ, ◌∷◌ as ◌∷ˢ◌}
use ai_chatbot.Base.Texts.{after_prefix, after_prefix-append}
use ai_chatbot.Base.{
  String, ◌<>◌, Bool, false, none, some, Result, ok, raise, value_error, if◌then◌else◌, ◌==◌,
  string_eq, ◌||◌, ◌≡◌, refl, arith,
}

unfoldable pub object_uri : String → String → String
object_uri bucket key = "s3://" <> bucket <> "/" <> key

abbrev slash : Char
slash = "/"

-- `text.partition("/")`, without the separator.
unfoldable pub partition : String → String × String
partition []ˢ = ("", "")
partition (c ∷ˢ s) =
    let rest = partition s in if (c ∷ˢ []ˢ) == "/" then ("", s) else (c ∷ˢ rest.0, rest.1)

unfoldable pub split_uri : String → Result (String × String)
unfolding after_prefix partition
split_uri uri = elim (after_prefix "s3://" uri) [
  | none ↦ raise value_error
  | some rest ↦
      if (partition rest).0 == "" || (partition rest).1 == ""
      then raise value_error
      else ok (partition rest)
]

abbrev pub has_slash : String → Bool
has_slash []ˢ = false
has_slash (c ∷ˢ s) = (c ∷ˢ []ˢ) == "/" || has_slash s

partition-append :
    (bucket key : String)
    → has_slash bucket ≡ false
    → partition (bucket <> ("/" <> key)) ≡ (bucket, key)
unfolding partition string_eq
partition-append []ˢ key h =
    rw (append.nil ("/" <> key), append.cons slash []ˢ key, append.nil key) refl
partition-append (c ∷ˢ s) key h =
    rw (append.cons c s ("/" <> key)) (ground (arith, partition-append s key))

-- The uri of an object is split into its bucket and its key again, if neither is empty and the
-- bucket holds no slash.
pub split_uri-object_uri :
    (bucket key : String)
    → has_slash bucket ≡ false
    → (bucket == "") ≡ false
    → (key == "") ≡ false
    → split_uri (object_uri bucket key) ≡ ok (bucket, key)
unfolding split_uri object_uri
split_uri-object_uri bucket key h b k =
    rw
      (
        object_uri,
        split_uri,
        after_prefix-append "s3://" (bucket <> ("/" <> key)),
        partition-append bucket key h,
        b,
        k,
      )
      refl
