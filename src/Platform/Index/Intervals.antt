-- ===== src/Platform/Index/Intervals.antt =====
-- Validity intervals: the versions from the first number up to the second, or all that follow.
use ai_chatbot.Base.{
  ℕ, ◌<◌, Bool, true, false, ◌&&◌, Option, none, some, List, [], ◌∷◌, ◌++◌, map, ◌≡◌, refl, arith,
  if◌then◌else◌, ◌==◌, nat_eq, ltb, leb, any, any-append,
}

abbrev pub Interval : Type 0
Interval = ℕ × Option ℕ

abbrev pub ends_after : Option ℕ → ℕ → Bool
ends_after none v = true
ends_after (some e) v = ltb v e

abbrev pub covers : ℕ → Interval → Bool
covers v (start, stop) = leb start v && ends_after stop v

-- `_visible`
abbrev pub is_visible : List Interval → ℕ → Bool
is_visible intervals v = any (covers v) intervals

abbrev pub starts_at : ℕ → Interval → Bool
starts_at v (start, _) = start == v

-- `version if end is None and start < version else end`
abbrev pub close_at : ℕ → Interval → Interval
close_at v (start, none) = (start, if ltb start v then some v else none)
close_at v (start, some e) = (start, some e)

-- What `open_intervals` makes of one chunk's intervals.
abbrev pub open_at : ℕ → List Interval → List Interval
open_at v intervals =
    if any (starts_at v) intervals then intervals else intervals ++ ((v, none) ∷ [])

-- Closing at a version hides nothing from the versions before it.
pub is_visible-close :
    (n v : ℕ) (xs : List Interval) → v < n → is_visible (map (close_at n) xs) v ≡ is_visible xs v
is_visible-close n v [] h = refl
is_visible-close n v ((start, none) ∷ xs) h = ground (arith, is_visible-close n v xs h)
is_visible-close n v ((start, some e) ∷ xs) h = ground (arith, is_visible-close n v xs h)

-- Opening at a version shows nothing to the versions before it.
pub is_visible-open :
    (n v : ℕ) (xs : List Interval) → v < n → is_visible (open_at n xs) v ≡ is_visible xs v
is_visible-open n v xs h = ground (arith, any-append (covers v) xs ((n, none) ∷ []))

pub is_visible-open_self :
    (n : ℕ) (xs : List Interval) → any (starts_at n) xs ≡ false → is_visible (open_at n xs) n ≡ true
is_visible-open_self n xs h = ground (arith, any-append (covers n) xs ((n, none) ∷ []))

pub open_at_twice : (n : ℕ) (xs : List Interval) → open_at n (open_at n xs) ≡ open_at n xs
open_at_twice n xs = ground (arith, any-append (starts_at n) xs ((n, none) ∷ []))

pub close_at_twice :
    (n : ℕ) (xs : List Interval) → map (close_at n) (map (close_at n) xs) ≡ map (close_at n) xs
close_at_twice n [] = refl
close_at_twice n ((start, none) ∷ xs) = ground (arith, close_at_twice n xs)
close_at_twice n ((start, some e) ∷ xs) = ground (arith, close_at_twice n xs)
