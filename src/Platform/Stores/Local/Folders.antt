-- ===== src/Platform/Stores/Local/Folders.antt =====
-- The folders of the local store: what making them changes, and what it leaves.
use Prim.Native.String.append
use Prim.Native.String.{[] as []ˢ, ◌∷◌ as ◌∷ˢ◌}
use ai_chatbot.Base.{
  ℕ, suc, ◌+◌, ◌<◌, ◌≤◌, String, ◌<>◌, Bool, true, false, not, List, [], ◌∷◌, ok, ◌==◌, string_eq,
  contains, all, ◌≡◌, refl, ap, ◌∙◌, arith, Bool-cases, inl, inr, ==_iff,
}
use ai_chatbot.Base.Dict.{lookup, lookup-insert}
use ai_chatbot.Base.State.{>>-keeps, >>-ok}
use ai_chatbot.Platform.Stores.{parts_of}
use ai_chatbot.Platform.Stores.Local.{
  folder, Files, below, locate, folders_above, is_file, bytes_of, make_folder, make_folders,
}

-- The number of characters.
abbrev size : String → ℕ
size []ˢ = 0
size (c ∷ˢ s) = suc (size s)

size-append : (s t : String) → size (s <> t) ≡ size s + size t
size-append []ˢ t = rw (append.nil t) (omega arith)
size-append (c ∷ˢ s) t = rw (append.cons c s t) (omega (arith, size-append s t))

size-below : (path part : String) → size path < size (below path part)
size-below path part = omega (arith, size-append path ("/" <> part), size-append "/" part)

size-locate : (path : String) (parts : List String) → size path ≤ size (locate path parts)
unfolding locate
size-locate path [] = omega arith
size-locate path (part ∷ parts) =
    omega (arith, size-below path part, size-locate (below path part) parts)

-- No folder above a file is the file.
pub folders_above-apart :
    (long path : String) (parts : List String)
    → size (locate path parts) ≤ size long
    → contains (folders_above path parts) long ≡ false
unfolding folders_above locate
folders_above-apart long path [] h = refl
folders_above-apart long path (part ∷ parts) h = elim (Bool-cases (long == path)) [
  | inl same ↦
      let equal = ap size ((==_iff long path).0 same) in
      absurd (omega (arith, equal, size-below path part, size-locate (below path part) parts))
  | inr other ↦ rw other (folders_above-apart long (below path part) parts h)
]

-- The location of a key, and the folders above it.
abbrev pub location : String → String → String
location bucket key = locate bucket (parts_of key)

abbrev pub above : String → String → List String
above bucket key = folders_above bucket (parts_of key)

module _ {Data : Type 0} where
  make_folder-files :
      (p path : String) (fs : Files Data)
      → bytes_of (lookup p (make_folder path fs).1) ≡ bytes_of (lookup p fs)
  unfolding make_folder
  make_folder-files p path fs = ground (arith, lookup-insert p path folder fs)

  make_folder-other :
      (p path : String) (fs : Files Data)
      → (p == path) ≡ false
      → lookup p (make_folder path fs).1 ≡ lookup p fs
  unfolding make_folder
  make_folder-other p path fs h = ground (arith, lookup-insert p path folder fs)

  make_folder-is_file :
      (p path : String) (fs : Files Data)
      → is_file (lookup p (make_folder path fs).1) ≡ is_file (lookup p fs)
  unfolding make_folder
  make_folder-is_file p path fs = ground (arith, lookup-insert p path folder fs)

  make_folder-ok :
      (path : String) (fs : Files Data)
      → is_file (lookup path fs) ≡ false
      → (make_folder path fs).0 ≡ ok tt
  unfolding make_folder
  make_folder-ok path fs h = ground arith

  pub make_folders-files :
      (p : String) (paths : List String) (fs : Files Data)
      → bytes_of (lookup p (make_folders paths fs).1) ≡ bytes_of (lookup p fs)
  unfolding make_folders
  make_folders-files p [] fs = refl
  make_folders-files p (path ∷ paths) fs =
      >>-keeps (λ t. bytes_of (lookup p t) ≡ bytes_of (lookup p fs)) (make_folder path)
        (make_folders paths) fs (make_folder-files p path fs)
        (λ t h. make_folders-files p paths t ∙ h)

  make_folders-is_file :
      (p : String) (paths : List String) (fs : Files Data)
      → is_file (lookup p (make_folders paths fs).1) ≡ is_file (lookup p fs)
  unfolding make_folders
  make_folders-is_file p [] fs = refl
  make_folders-is_file p (path ∷ paths) fs =
      >>-keeps (λ t. is_file (lookup p t) ≡ is_file (lookup p fs)) (make_folder path)
        (make_folders paths) fs (make_folder-is_file p path fs)
        (λ t h. make_folders-is_file p paths t ∙ h)

  pub make_folders-other :
      (p : String) (paths : List String) (fs : Files Data)
      → contains paths p ≡ false
      → lookup p (make_folders paths fs).1 ≡ lookup p fs
  unfolding make_folders
  make_folders-other p [] fs h = refl
  make_folders-other p (path ∷ paths) fs h =
      >>-keeps (λ t. lookup p t ≡ lookup p fs) (make_folder path) (make_folders paths) fs
        (make_folder-other p path fs (ground arith))
        (λ t e. make_folders-other p paths t (ground arith) ∙ e)

  -- No folder above the path is a file.
  abbrev pub is_open : List String → Files Data → Bool
  is_open paths fs = all (λ p. not (is_file (lookup p fs))) paths

  is_open-make_folder :
      (path : String) (paths : List String) (fs : Files Data)
      → is_open paths fs ≡ true
      → is_open paths (make_folder path fs).1 ≡ true
  is_open-make_folder path [] fs h = refl
  is_open-make_folder path (p ∷ paths) fs h =
      ground (arith, make_folder-is_file p path fs, is_open-make_folder path paths fs)

  pub make_folders-ok :
      (paths : List String) (fs : Files Data)
      → is_open paths fs ≡ true
      → (make_folders paths fs).0 ≡ ok tt
  unfolding make_folders
  make_folders-ok [] fs h = refl
  make_folders-ok (path ∷ paths) fs h =
      let made = make_folder-ok path fs (ground arith) in
      rw (>>-ok (make_folder path) (make_folders paths) fs made) (
        make_folders-ok paths (make_folder path fs).1
          (is_open-make_folder path paths fs (ground arith)))
