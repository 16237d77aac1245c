-- ===== src/Platform/Versioning/Publish/Timeline.antt =====
-- The intervals of one chunk when a version is published, from any state that a publication of the
-- same version may have left when it stopped halfway.
use ai_chatbot.Base.{
  ℕ, ◌<◌, Bool, true, false, ◌&&◌, ◌||◌, not, Option, none, some, List, [], ◌∷◌, map, ◌≡◌, refl,
  arith, if◌then◌else◌, ◌==◌, nat_eq, leb, all, any, any-append,
}
use ai_chatbot.Platform.Index.{
  Interval, covers, is_visible, starts_at, close_at, open_at, is_visible-close, is_visible-open,
}

-- An end that was set up to version `l`, or by the publication of `n`, which closes a chunk that is
-- not wanted.
abbrev pub ends_by : ℕ → ℕ → Bool → Option ℕ → Bool
ends_by l n wanted none = true
ends_by l n wanted (some e) = leb e l || (e == n && not wanted)

abbrev pub is_none : Option ℕ → Bool
is_none none = true
is_none (some _) = false

-- An interval from up to version `l`, or one that the publication of `n` opened for a chunk that is
-- wanted.
abbrev pub is_resumable : ℕ → ℕ → Bool → Interval → Bool
is_resumable l n wanted (start, stop) =
    (leb start l && ends_by l n wanted stop) || (start == n && (is_none stop && wanted))

-- What the publication of `n` makes of the intervals, if the chunk was active at the latest version
-- and is wanted at `n`.
abbrev pub publish_at : ℕ → Bool → Bool → List Interval → List Interval
publish_at n active wanted xs =
    let closed = if active && not wanted then map (close_at n) xs else xs in
    if wanted && not active then open_at n closed else closed

-- The versions before `n` see what they saw.
pub is_visible-publish_at :
    (n v : ℕ) (active wanted : Bool) (xs : List Interval)
    → v < n
    → is_visible (publish_at n active wanted xs) v ≡ is_visible xs v
is_visible-publish_at n v active wanted xs h =
    ground (arith, is_visible-close n v xs h, is_visible-open n v xs h)

-- A chunk that is not wanted: closed, nothing of it is visible at `n`.
hidden_closed :
    (l n : ℕ) (xs : List Interval)
    → l < n
    → all (is_resumable l n false) xs ≡ true
    → is_visible (map (close_at n) xs) n ≡ false
hidden_closed l n [] h r = refl
hidden_closed l n ((start, none) ∷ xs) h r = ground (arith, hidden_closed l n xs h)
hidden_closed l n ((start, some e) ∷ xs) h r = ground (arith, hidden_closed l n xs h)

hidden_before :
    (l n : ℕ) (xs : List Interval)
    → l < n
    → all (is_resumable l n false) xs ≡ true
    → is_visible xs l ≡ false
    → is_visible xs n ≡ false
hidden_before l n [] h r e = refl
hidden_before l n ((start, none) ∷ xs) h r e = ground (arith, hidden_before l n xs h)
hidden_before l n ((start, some stop) ∷ xs) h r e = ground (arith, hidden_before l n xs h)

stays_visible :
    (l n : ℕ) (xs : List Interval)
    → l < n
    → all (is_resumable l n true) xs ≡ true
    → is_visible xs l ≡ true
    → is_visible xs n ≡ true
stays_visible l n [] h r e = e
stays_visible l n ((start, none) ∷ xs) h r e = ground (arith, stays_visible l n xs h)
stays_visible l n ((start, some stop) ∷ xs) h r e = ground (arith, stays_visible l n xs h)

opened_visible :
    (l n : ℕ) (xs : List Interval)
    → l < n
    → all (is_resumable l n true) xs ≡ true
    → any (starts_at n) xs ≡ true
    → is_visible xs n ≡ true
opened_visible l n [] h r e = e
opened_visible l n ((start, none) ∷ xs) h r e = ground (arith, opened_visible l n xs h)
opened_visible l n ((start, some stop) ∷ xs) h r e = ground (arith, opened_visible l n xs h)

-- After the publication a chunk is visible at `n` exactly if it is wanted.
pub is_visible-publish_at_self :
    (l n : ℕ) (wanted : Bool) (xs : List Interval)
    → l < n
    → all (is_resumable l n wanted) xs ≡ true
    → is_visible (publish_at n (is_visible xs l) wanted xs) n ≡ wanted
is_visible-publish_at_self l n true xs h r = ground (
  arith,
  stays_visible l n xs h r,
  opened_visible l n xs h r,
  any-append (covers n) xs ((n, none) ∷ []),
)
is_visible-publish_at_self l n false xs h r =
    ground (arith, hidden_closed l n xs h r, hidden_before l n xs h r)
