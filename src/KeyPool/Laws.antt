-- ===== src/KeyPool/Laws.antt =====
-- What `next_live_key` returns: a live key if the pool has one, else the key that is free soonest.
use native.Mathlib.Nat.{add-zero, mod-lt, mod-eq_of_lt, mod-add-mod, mod-eq-sub-mod}
use claude_chakra.Prelude.{
  ℕ, zero, suc, ◌+◌, ◌-◌, ◌%◌, ◌≤◌, ◌<◌, ◌≡◌, refl, ◌∙◌, sym, ap, inl, inr, true, false, none, some,
  List, [], ◌∷◌, arith, tests, Bool-cases, Option-cases, length, get_or, Text, leb, ltb,
  if◌then◌else◌,
}
use claude_chakra.KeyPool.{
  KeyPool, get_cooldown, is_live, current, advance, scan, min_by, soonest_of, or_soonest,
  next_live_key,
}

-- Every residue below `n` is met within `n` consecutive steps from any start.
pub reach : (c j n : ℕ) → j < n → (i : ℕ) × (i < n) × ((c + i) % n ≡ j)
reach c j n h = elim (Bool-cases (leb (c % n) j)) [
  | inl near ↦ (j - c % n, omega tests, sym (mod-add-mod c n (j - c % n)) ∙ step near)
  | inr far ↦ (j + n - c % n, omega (tests, below), sym (mod-add-mod c n _) ∙ wrap far)
]
  where
    below : c % n < n
    below = mod-lt c (omega arith)

    step : leb (c % n) j ≡ true → (c % n + (j - c % n)) % n ≡ j
    step near = ap (λ x. x % n) (omega tests) ∙ mod-eq_of_lt h

    wrap : leb (c % n) j ≡ false → (c % n + (j + n - c % n)) % n ≡ j
    wrap far =
        ap (λ x. x % n) (let e : c % n + (j + n - c % n) ≡ j + n = omega (arith, below) in e)
        ∙ mod-eq-sub-mod (omega arith)
        ∙ ap (λ x. x % n) (omega arith)
        ∙ mod-eq_of_lt h

-- The key that the loop reads in its round `i`.
abbrev pub key_at : KeyPool → ℕ → Text
key_at p i = get_or p.keys ((p.cursor + i) % length p.keys) []

pub key_at-zero : (p : KeyPool) → key_at p 0 ≡ current p
unfolding current
key_at-zero p = rw add-zero

pub key_at-advance : (p : KeyPool) (i : ℕ) → key_at (advance p) i ≡ key_at p (suc i)
key_at-advance p i =
    ap (λ x. get_or p.keys (x % length p.keys) [])
      (let e : p.cursor + 1 + i ≡ p.cursor + suc i = omega arith in e)

is_live-advance : (p : KeyPool) (now : ℕ) (k : Text) → is_live (advance p) now k ≡ is_live p now k
unfolding is_live
is_live-advance p now k = refl

scan-misses :
    (r now i : ℕ) (p : KeyPool)
    → (scan r now p).0 ≡ none
    → i < r
    → is_live p now (key_at p i) ≡ false
unfolding scan
scan-misses zero now i p h lt = absurd (omega arith)
scan-misses (suc r) now zero p h lt = rw key_at-zero (ground arith)
scan-misses (suc r) now (suc i) p h lt =
    rw (← key_at-advance p i, ← is_live-advance p now (key_at (advance p) i))
      (scan-misses r now i (advance p) (ground arith) (omega arith))

scan-hits :
    (r now : ℕ) (p : KeyPool) {k : Text}
    → (scan r now p).0 ≡ some k
    → (is_live p now k ≡ true) × ((i : ℕ) × (i < r) × (key_at p i ≡ k))
unfolding scan
scan-hits zero now p h = cc
scan-hits (suc r) now p {k} h = elim (Bool-cases (is_live p now (current p))) [
  | inl live ↦ (ground arith, (0, omega arith, key_at-zero p ∙ ground arith))
  | inr cool ↦
      let (live, (i, lt, e)) = scan-hits r now (advance p) {k = k} (ground arith) in
      (sym (is_live-advance p now k) ∙ live, (suc i, omega arith, sym (key_at-advance p i) ∙ e))
]

min_by-le : (f : Text → ℕ) (b : Text) (ks : List Text) → f (min_by f b ks) ≤ f b
unfolding min_by
min_by-le f b [] = omega arith
min_by-le f b (k ∷ ks) = ground (arith, min_by-le f k ks, min_by-le f b ks)

min_by-le_all :
    (f : Text → ℕ) (b : Text) (ks : List Text) (j : ℕ)
    → j < length ks
    → f (min_by f b ks) ≤ f (get_or ks j [])
unfolding min_by
min_by-le_all f b [] j h = absurd (omega arith)
min_by-le_all f b (k ∷ ks) zero h = ground (arith, min_by-le f k ks, min_by-le f b ks)
min_by-le_all f b (k ∷ ks) (suc j) h =
    min_by-le_all f (if ltb (f k) (f b) then k else b) ks j (omega arith)

min_by-mem :
    (f : Text → ℕ) (b : Text) (ks : List Text)
    → (j : ℕ) × (j < suc (length ks)) × (get_or (b ∷ ks) j [] ≡ min_by f b ks)
unfolding min_by
min_by-mem f b [] = (0, omega arith, refl)
min_by-mem f b (k ∷ ks) = elim (Bool-cases (ltb (f k) (f b))) [
  | inl lt ↦ rw lt (let (j, h, e) = min_by-mem f k ks in (suc j, omega arith, e))
  | inr ge ↦ rw ge (let (j, h, e) = min_by-mem f b ks in skip j h e)
]
  where
    skip :
        (j : ℕ)
        → j < suc (length ks)
        → get_or (b ∷ ks) j [] ≡ min_by f b ks
        → (i : ℕ) × (i < suc (suc (length ks))) × (get_or (b ∷ k ∷ ks) i [] ≡ min_by f b ks)
    skip zero h e = (0, omega arith, e)
    skip (suc j) h e = (suc (suc j), omega arith, e)

-- `k` stands in the list, and its value is at most every other's.
abbrev IsLeast : (Text → ℕ) → List Text → Text → Type 0
IsLeast f ks k =
    ((i : ℕ) × (i < length ks) × (get_or ks i [] ≡ k))
    × ((j : ℕ) → j < length ks → f k ≤ f (get_or ks j []))

soonest_of-IsLeast :
    (f : Text → ℕ) (ks : List Text)
    → 0 < length ks
    → (k : Text) × (soonest_of f ks ≡ some k) × IsLeast f ks k
unfolding soonest_of
soonest_of-IsLeast f [] h = absurd (omega arith)
soonest_of-IsLeast f (b ∷ ks) h = (min_by f b ks, refl, (min_by-mem f b ks, least))
  where
    least : (j : ℕ) → j < suc (length ks) → f (min_by f b ks) ≤ f (get_or (b ∷ ks) j [])
    least zero lt = min_by-le f b ks
    least (suc j) lt = min_by-le_all f b ks j (omega arith)

scan-keeps :
    (r now : ℕ) (p : KeyPool)
    → ((scan r now p).1.keys ≡ p.keys) × ((scan r now p).1.cooldown_until ≡ p.cooldown_until)
unfolding scan
scan-keeps zero now p = (refl, refl)
scan-keeps (suc r) now p = ground (arith, scan-keeps r now (advance p))

-- Nothing in the pool is a better choice than `k`: `k` is live if any key is, and if it is not
-- live then no key is free sooner.
pub record IsBest (p : KeyPool) (now : ℕ) (k : Text) : Type 0 where
  pub key : (i : ℕ) × (i < length p.keys) × (get_or p.keys i [] ≡ k)
  pub live :
      (j : ℕ)
      → j < length p.keys
      → is_live p now (get_or p.keys j []) ≡ true
      → is_live p now k ≡ true
  pub least :
      is_live p now k ≡ false
      → (j : ℕ) → j < length p.keys
      → get_cooldown p.cooldown_until k ≤ get_cooldown p.cooldown_until (get_or p.keys j [])

module _ (now : ℕ) (p : KeyPool) (h : 0 < length p.keys) where
  hit-IsBest : {k : Text} → (scan (length p.keys) now p).0 ≡ some k → IsBest p now k
  hit-IsBest {k} e =
      let (live, (i, lt, at)) = scan-hits (length p.keys) now p {k = k} e in
      record {
        key = ((p.cursor + i) % length p.keys, mod-lt _ h, at);
        live = λ j below l. live;
        least = λ dead. cc;
      }

  no_live :
      (scan (length p.keys) now p).0 ≡ none
      → (j : ℕ) → j < length p.keys
      → is_live p now (get_or p.keys j []) ≡ false
  no_live e j below =
      let (i, lt, at) = reach p.cursor j (length p.keys) below in
      ap (λ x. is_live p now (get_or p.keys x [])) (sym at)
      ∙ scan-misses (length p.keys) now i p e lt

  miss-IsBest :
      {k : Text}
      → (scan (length p.keys) now p).0 ≡ none
      → IsLeast (get_cooldown p.cooldown_until) p.keys k
      → IsBest p now k
  miss-IsBest e l = record {
    key = l.0;
    live = λ j below on. absurd (cc (no_live e j below));
    least = λ dead. l.1;
  }

-- A pool with a key always answers, with one of its keys: a live one if any key is live, and
-- otherwise one whose cooldown ends no later than any other's.
pub next_live_key-IsBest :
    (now : ℕ) (p : KeyPool)
    → 0 < length p.keys
    → (k : Text) × ((next_live_key now p).0 ≡ some k) × IsBest p now k
unfolding next_live_key
next_live_key-IsBest now p h = elim (Option-cases (scan (length p.keys) now p).0) [
  | inl miss ↦
      let (k, e, l) = soonest_of-IsLeast (get_cooldown p.cooldown_until) p.keys h in
      let kept = scan-keeps (length p.keys) now p in
      (k, rw (miss, or_soonest, kept.0, kept.1) e, miss-IsBest now p h miss l)
  | inr (k, hit) ↦ (k, rw (hit, or_soonest), hit-IsBest now p h hit)
]
