-- ===== src/KeyPool.antt =====
-- providers/key_pool.py: the API keys of one provider, handed out round robin, with a cooldown for
-- a key that the provider answered with 429.
--
-- Readings of `time.monotonic()` and durations are natural numbers of ticks: the code only adds and
-- compares them. Each method takes the reading that it makes as its argument `now`. Log lines are
-- left out.
pub mod Laws
pub mod Rotation
use mathlib.Core.Option
use claude_chakra.Prelude.{
  ℕ, zero, suc, ◌+◌, ◌%◌, Bool, not, Option, none, some, List, [], ◌∷◌, map, leb, ltb,
  if◌then◌else◌, length, get_or, filter, count, all, Text, text_eq, strip, is_empty,
}
use claude_chakra.Prelude.Int.{ℤ, pos_part}

pub record KeyPool : Type 0 where
  pub keys : List Text
  pub scope : Text
  pub cooldown_until : List (Text × ℕ)
  pub cursor : ℕ
  pub default_cooldown : ℕ

-- `d.get(key, 0.0)` on the dictionary of cooldowns, whose newest entry for a key stands first.
unfoldable pub get_cooldown : List (Text × ℕ) → Text → ℕ
get_cooldown [] key = 0
get_cooldown ((k, t) ∷ rest) key = if text_eq k key then t else get_cooldown rest key

-- The constructor's `tuple(stripped for key in keys if (stripped := key.strip()))`.
unfoldable pub clean : List Text → List Text
clean keys = filter (λ k. not (is_empty k)) (map strip keys)

build : List Text → Text → ℕ → Option KeyPool
build [] scope default = none
build (k ∷ ks) scope default = some (record {
  keys = k ∷ ks;
  scope = scope;
  cooldown_until = [];
  cursor = 0;
  default_cooldown = default;
})

-- `none` is the ValueError of a pool with no key.
pub init : List Text → Text → ℕ → Option KeyPool
unfolding build clean
init keys scope default = build (clean keys) scope default

pub size : KeyPool → ℕ
size p = length p.keys

-- A key whose cooldown is over at the reading `now`.
unfoldable pub is_live : KeyPool → ℕ → Text → Bool
is_live p now key = leb (get_cooldown p.cooldown_until key) now

-- The key at the cursor. The loop that reads it makes as many rounds as there are keys, so there is
-- a key wherever it is read.
unfoldable pub current : KeyPool → Text
current p = get_or p.keys (p.cursor % length p.keys) []

abbrev pub advance : KeyPool → KeyPool
advance p = record p { cursor = p.cursor + 1 }

-- The `for _ in range(n)` loop of `next_live_key`: `none` when no round returned.
unfoldable pub scan : ℕ → ℕ → KeyPool → Option Text × KeyPool
scan zero now p = (none, p)
scan (suc n) now p =
    let rest = scan n now (advance p) in
    if is_live p now (current p) then (some (current p), advance p) else rest

-- `min(keys, key=...)`: the first key with the least value. `none` is the ValueError of an empty
-- sequence.
min_by : (Text → ℕ) → Text → List Text → Text
min_by value best [] = best
min_by value best (k ∷ ks) = min_by value (if ltb (value k) (value best) then k else best) ks

soonest_of : (Text → ℕ) → List Text → Option Text
unfolding min_by
soonest_of value [] = none
soonest_of value (k ∷ ks) = some (min_by value k ks)

pub soonest : KeyPool → Option Text
unfolding soonest_of
soonest p = soonest_of (get_cooldown p.cooldown_until) p.keys

unfoldable pub or_soonest : Option Text × KeyPool → Option Text × KeyPool
or_soonest (some key, p) = (some key, p)
or_soonest (none, p) = (soonest p, p)

unfoldable pub next_live_key : ℕ → KeyPool → Option Text × KeyPool
unfolding scan or_soonest soonest is_live current
next_live_key now p = or_soonest (scan (length p.keys) now p)

-- The cooldown that is applied: the default, or the one given with a negative one raised to 0.
unfoldable pub applied : KeyPool → Option ℤ → ℕ
applied p none = p.default_cooldown
applied p (some c) = pos_part c

unfoldable pub report_rate_limit : ℕ → Text → Option ℤ → KeyPool → KeyPool
unfolding applied
report_rate_limit now key cooldown p = record p {
  cooldown_until = (key, now + applied p cooldown) ∷ p.cooldown_until;
}

pub all_cooling : ℕ → KeyPool → Bool
unfolding is_live
all_cooling now p = all (λ k. ltb now (get_cooldown p.cooldown_until k)) p.keys

pub remaining_live_keys : ℕ → KeyPool → ℕ
unfolding is_live
remaining_live_keys now p = count (is_live p now) p.keys
