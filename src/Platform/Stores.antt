-- ===== src/Platform/Stores.antt =====
-- libs/platform/src/chatbot_platform/storage.py: the protocol `ObjectStore`, the check of keys, and
-- the two adapters. `Data` is the type of bytes.
pub mod Local
pub mod Remote
use Prim.Native.String.{[] as []ˢ, ◌∷◌ as ◌∷ˢ◌}
use ai_chatbot.Base.{
  String, Bool, true, ◌||◌, List, [], ◌∷◌, Result, ok, raise, value_error, if◌then◌else◌, ◌==◌,
  string_eq, contains, is_empty, raise_if, ◌≡◌,
}
use ai_chatbot.Base.State.{M}
use ai_chatbot.Base.Texts.{starts_with}
use ai_chatbot.Platform.Ops.Storage.{object_uri}

pub record ObjectStore (Data : Type 0) : Type 1 where
  pub State : Type 0
  pub ensure_bucket : String → M State (Unit {0})
  pub put : String → String → Data → M State String
  pub get : String → String → M State Data
  pub contains_object : String → String → M State Bool
  pub delete : String → String → M State (Unit {0})
  pub list_keys : String → String → M State (List String)

-- What a client of a store relies on: what was put is there, and is what a get returns.
pub record IsLawful {Data : Type 0} (O : ObjectStore Data) : Type 0 where
  pub contains_keeps : (bucket key : String) (s : O.State) → (O.contains_object bucket key s).1 ≡ s
  pub put_uri :
      (bucket key : String) (bytes : Data) (s t : O.State) (uri : String)
      → O.put bucket key bytes s ≡ (ok uri, t)
      → uri ≡ object_uri bucket key
  pub put_get :
      (bucket key : String) (bytes : Data) (s t : O.State) (uri : String)
      → O.put bucket key bytes s ≡ (ok uri, t)
      → O.get bucket key t ≡ (ok bytes, t)
  pub put_contains :
      (bucket key : String) (bytes : Data) (s t : O.State) (uri : String)
      → O.put bucket key bytes s ≡ (ok uri, t)
      → O.contains_object bucket key t ≡ (ok true, t)

-- A component of a path, if it counts.
abbrev pub component : String → List String → List String
component part parts = if part == "" || part == "." then parts else part ∷ parts

-- The text up to the first slash, and the components behind it.
unfoldable pub split_path : String → String × List String
split_path []ˢ = ("", [])
split_path (c ∷ˢ s) =
    let rest = split_path s in
    if (c ∷ˢ []ˢ) == "/" then ("", component rest.0 rest.1) else (c ∷ˢ rest.0, rest.1)

-- `PurePosixPath(key).parts`, less the root of an absolute path.
unfoldable pub parts_of : String → List String
unfolding split_path
parts_of key = component (split_path key).0 (split_path key).1

unfoldable pub is_unsafe : String → Bool
unfolding parts_of
is_unsafe key = is_empty (parts_of key) || contains (parts_of key) ".." || starts_with "/" key

unfoldable pub check_key : String → Result (Unit {0})
unfolding is_unsafe
check_key key = raise_if (is_unsafe key) value_error
