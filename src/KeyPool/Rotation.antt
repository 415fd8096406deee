-- ===== src/KeyPool/Rotation.antt =====
-- Rotation: what a reported rate limit changes, and how fairly a pool with live keys hands them out.
use native.Mathlib.Nat.{mod-lt}
use claude_chakra.Prelude.{
  ℕ, zero, suc, ◌+◌, ◌%◌, ◌<◌, ◌≡◌, ◌≢◌, ◌↔◌, refl, ◌∙◌, sym, ap, true, false, Option, some, List,
  [], ◌∷◌, arith, leb, if◌then◌else◌, length, get_elem?, get_or, Text, text_eq, text_eq_iff,
  text_eq_refl, all, count, ltb,
}
use claude_chakra.Prelude.Int.{ℤ}
use claude_chakra.KeyPool.{
  KeyPool, get_cooldown, is_live, current, advance, scan, or_soonest, next_live_key, applied,
  report_rate_limit, all_cooling, remaining_live_keys,
}
use claude_chakra.KeyPool.Laws.{key_at, key_at-zero, key_at-advance, reach, next_live_key-IsBest}

-- After a report the key is live again exactly when the applied cooldown is over; the others are
-- as live as they were.
pub is_live-report :
    (now t : ℕ) (key other : Text) (c : Option ℤ) (p : KeyPool)
    → is_live (report_rate_limit now key c p) t other
      ≡ (if text_eq key other then leb (now + applied p c) t else is_live p t other)
unfolding is_live report_rate_limit get_cooldown
is_live-report now t key other c p = ground arith

-- While the reported key cools and another key is live, the pool hands out another key.
pub next_live_key-avoids :
    (now t j : ℕ) (key got : Text) (c : Option ℤ) (p : KeyPool)
    → t < now + applied p c
    → j < length p.keys
    → get_or p.keys j [] ≢ key
    → is_live p t (get_or p.keys j []) ≡ true
    → (next_live_key t (report_rate_limit now key c p)).0 ≡ some got
    → got ≢ key
unfolding report_rate_limit
next_live_key-avoids now t j key got c p early below other live e same =
    let q = report_rate_limit now key c p in
    let (k, answer, best) = next_live_key-IsBest t q (omega arith) in
    let still : is_live q t (get_or p.keys j []) ≡ true =
      is_live-report now t key (get_or p.keys j []) c p
      ∙ ground (arith, text_eq_iff key (get_or p.keys j [])) in
    let cold : is_live q t key ≡ false =
      is_live-report now t key key c p ∙ ground (arith, text_eq_refl key) in
    absurd (cc (best.live j below still))

scan-current :
    (r now : ℕ) (p : KeyPool)
    → 0 < r
    → is_live p now (current p) ≡ true
    → scan r now p ≡ (some (current p), advance p)
unfolding scan
scan-current zero now p h live = absurd (omega arith)
scan-current (suc r) now p h live = rw live

-- A live key at the cursor is handed out, and the cursor moves on by one.
next_live_key-current :
    (now : ℕ) (p : KeyPool)
    → 0 < length p.keys
    → is_live p now (current p) ≡ true
    → next_live_key now p ≡ (some (current p), advance p)
unfolding next_live_key
next_live_key-current now p h live = rw (scan-current (length p.keys) now p h live, or_soonest) refl

-- The answers of `n` calls in a row.
pub handed : ℕ → ℕ → KeyPool → List (Option Text)
handed zero now p = []
handed (suc n) now p = let (k, p') = next_live_key now p in k ∷ handed n now p'

abbrev pub AllLive : ℕ → KeyPool → Type 0
AllLive now p = (j : ℕ) → j < length p.keys → is_live p now (get_or p.keys j []) ≡ true

at_cursor :
    (now : ℕ) (p : KeyPool) → 0 < length p.keys → AllLive now p → is_live p now (current p) ≡ true
unfolding current
at_cursor now p h live = live (p.cursor % length p.keys) (mod-lt p.cursor h)

live_later :
    (now : ℕ) (p : KeyPool) (j : ℕ)
    → is_live p now (get_or p.keys j []) ≡ true
    → is_live (advance p) now (get_or p.keys j []) ≡ true
unfolding is_live
live_later now p j h = h

-- With all keys live, the calls hand out the keys in their order, from the cursor on and round.
pub handed-in_turn :
    (n now i : ℕ) (p : KeyPool)
    → 0 < length p.keys
    → AllLive now p
    → i < n
    → get_elem? (handed n now p) i ≡ some (some (key_at p i))
unfolding handed
handed-in_turn zero now i p h live lt = absurd (omega arith)
handed-in_turn (suc n) now zero p h live lt =
    rw (next_live_key-current now p h (at_cursor now p h live))
      (ap (λ x. some (some x)) (sym (key_at-zero p)))
handed-in_turn (suc n) now (suc i) p h live lt =
    rw (next_live_key-current now p h (at_cursor now p h live)) (
      handed-in_turn n now i (advance p) h (λ j below. live_later now p j (live j below))
        (omega arith)
      ∙ ap (λ x. some (some x)) (key_at-advance p i))

-- In any lap of as many calls as there are keys, all of them live, every key is handed out.
pub handed-each :
    (now j : ℕ) (p : KeyPool)
    → AllLive now p
    → j < length p.keys
    → (i : ℕ) × (i < length p.keys)
      × (get_elem? (handed (length p.keys) now p) i ≡ some (some (get_or p.keys j [])))
handed-each now j p live below =
    let (i, lt, at) = reach p.cursor j (length p.keys) below in
    (
      i,
      lt,
      handed-in_turn (length p.keys) now i p (omega arith) live lt
          ∙ ap (λ x. some (some (get_or p.keys x []))) at,
    )

none_live_iff :
    (now : ℕ) (p : KeyPool) (ks : List Text)
    → (count (is_live p now) ks ≡ 0)
      ↔ (all (λ k. ltb now (get_cooldown p.cooldown_until k)) ks ≡ true)
unfolding count all is_live
none_live_iff now p [] = (λ _. refl, λ _. refl)
none_live_iff now p (k ∷ ks) =
    let ih = none_live_iff now p ks in (λ h. ground (arith, ih), λ h. ground (arith, ih))

-- The pool has no live key left exactly when it says that all are cooling.
pub remaining-eq-zero_iff :
    (now : ℕ) (p : KeyPool) → (remaining_live_keys now p ≡ 0) ↔ (all_cooling now p ≡ true)
unfolding remaining_live_keys all_cooling
remaining-eq-zero_iff now p = none_live_iff now p p.keys
