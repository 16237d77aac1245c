-- ===== src/Base/Texts.antt =====
-- Texts as Python reads them: prefixes, the `in` of a character, and `splitlines`.
use Prim.Native.Char.{Char, char, code}
use Prim.Native.Nat.{Ordering}
use Prim.Native.String.append
use Prim.Native.String.{String, compare, [] as []ˢ, ◌∷◌ as ◌∷ˢ◌, ◌++◌ as ◌<>◌}
use mathlib.Core.Path.{◌≡◌, refl}
use mathlib.Core.Bool.{Bool, true, false, ◌&&◌, not}
use mathlib.Core.Option.{Option, none, some}
use mathlib.Core.List.{List, [], ◌∷◌}
use native.Mathlib.Omega.{arith}
use ai_chatbot.Base.Equality.{◌==◌, contains, string_eq, nat_eq, if◌then◌else◌, is_some}

-- A character is compared as a text of one character.
abbrev pub same_char : Char → Char → Bool
same_char c d = (c ∷ˢ []ˢ) == (d ∷ˢ []ˢ)

-- `uri.removeprefix(prefix)`, where `uri.startswith(prefix)`.
unfoldable pub after_prefix : String → String → Option String
after_prefix []ˢ s = some s
after_prefix (c ∷ˢ p) []ˢ = none
after_prefix (c ∷ˢ p) (d ∷ˢ s) = let rest = after_prefix p s in if same_char c d then rest else none

-- The order of `sorted` on texts.
abbrev pub text_before : String → String → Bool
text_before x y = elim (compare x y) [ Ordering.lt ↦ true | _ ↦ false ]

-- `s.startswith(prefix)`
abbrev pub starts_with : String → String → Bool
starts_with prefix s = is_some (after_prefix prefix s)

pub after_prefix-append : (p s : String) → after_prefix p (p <> s) ≡ some s
unfolding after_prefix
after_prefix-append []ˢ s = rw (append.nil s) refl
after_prefix-append (c ∷ˢ p) s = rw (append.cons c p s) (ground (arith, after_prefix-append p s))

-- The characters that `str.splitlines` ends a line at.
abbrev pub is_break : Char → Bool
is_break c = contains (10 ∷ 11 ∷ 12 ∷ 13 ∷ 28 ∷ 29 ∷ 30 ∷ 133 ∷ 8232 ∷ 8233 ∷ []) (code c)

abbrev pub no_break : String → Bool
no_break []ˢ = true
no_break (c ∷ˢ s) = not (is_break c) && no_break s

pub no_break-append : (s t : String) → no_break (s <> t) ≡ (no_break s && no_break t)
no_break-append []ˢ t = rw (append.nil t) refl
no_break-append (c ∷ˢ s) t = rw (append.cons c s t) (ground (arith, no_break-append s t))

pub append_assoc : (s t u : String) → (s <> t) <> u ≡ s <> (t <> u)
append_assoc []ˢ t u = rw (append.nil t, append.nil (t <> u)) refl
append_assoc (c ∷ˢ s) t u =
    rw (append.cons c s t, append.cons c (s <> t) u, append.cons c s (t <> u), append_assoc s t u)
      refl

abbrev pub newline : Char
newline = char 10 tt

abbrev pub starts_newline : String → Bool
starts_newline []ˢ = false
starts_newline (c ∷ˢ s) = code c == 10

-- A character in front of the first line.
abbrev pub extend : Char → List String → List String
extend c [] = (c ∷ˢ []ˢ) ∷ []
extend c (line ∷ lines) = (c ∷ˢ line) ∷ lines

-- `s.splitlines()`; a carriage return and a newline end a line together.
unfoldable pub splitlines : String → List String
splitlines []ˢ = []
splitlines (c ∷ˢ s) =
    let rest = splitlines s in
    if is_break c
    then (if code c == 13 && starts_newline s then rest else "" ∷ rest)
    else extend c rest

-- A line without a line boundary of its own, and the character that ends it.
pub splitlines-line :
    (line : String) (c : Char) (rest : String)
    → no_break line ≡ true
    → is_break c ≡ true
    → (code c == 13) ≡ false
    → splitlines (line <> (c ∷ˢ rest)) ≡ line ∷ splitlines rest
unfolding splitlines
splitlines-line []ˢ c rest h b r = rw (append.nil (c ∷ˢ rest), b, r) refl
splitlines-line (d ∷ˢ line) c rest h b r =
    rw (append.cons d line (c ∷ˢ rest)) (ground (arith, splitlines-line line c rest))

-- The characters that `str.strip` removes.
abbrev pub is_space : Char → Bool
is_space c =
    contains
      (9 ∷ 10 ∷ 11 ∷ 12 ∷ 13 ∷ 28 ∷ 29 ∷ 30 ∷ 31 ∷ 32 ∷ 133 ∷ 160 ∷ 5760 ∷ 8192 ∷ 8193 ∷ 8194 ∷ 8195
        ∷ 8196 ∷ 8197 ∷ 8198 ∷ 8199 ∷ 8200 ∷ 8201 ∷ 8202 ∷ 8232 ∷ 8233 ∷ 8239 ∷ 8287 ∷ 12288 ∷ [])
      (code c)

-- `s.lstrip` of the characters that the test names.
abbrev pub strip_left : (Char → Bool) → String → String
strip_left drops []ˢ = ""
strip_left drops (c ∷ˢ s) = let rest = strip_left drops s in if drops c then rest else c ∷ˢ s

abbrev pub strip_right : String → String
strip_right []ˢ = ""
strip_right (c ∷ˢ s) =
    let rest = strip_right s in if is_space c && rest == "" then "" else c ∷ˢ rest

-- `s.strip()`
unfoldable pub strip : String → String
strip s = strip_right (strip_left is_space s)
