-- ===== src/SlidingWindow/Window.antt =====
-- The strict rolling window: however the rounds of all tasks interleave, no window holds more
-- acquisitions than the limit.
use mathlib.Core.Option.{some-injective}
use mathlib.Core.Path.{subst}
use claude_chakra.Prelude.{
  ℕ, suc, ◌+◌, ◌≤◌, ◌<◌, ◌≡◌, refl, sym, ap, ◌∙◌, inl, inr, Bool, ◌&&◌, true, false, some, List, [],
  ◌∷◌, ◌++◌, arith, Bool-cases, ltb, leb, length, count, count-append, All, All-append,
  append_assoc, append-nil, leb→le, leb→lt, ltb→lt,
}
use claude_chakra.Prelude.Int.{ℤ, pos}
use claude_chakra.SlidingWindow.{Limiter, init, prune, settle, round, run}

-- The readings in the half-open window (lo, lo + window].
abbrev pub in_window : ℕ → ℕ → ℕ → Bool
in_window lo window t = ltb lo t && leb t (lo + window)

-- The readings never go back, and none lies before `last`.
abbrev pub IsMonotone : ℕ → List ℕ → Type 0
IsMonotone last [] = Unit
IsMonotone last (t ∷ ts) = (last ≤ t) × IsMonotone t ts

-- What `prune` drops is out of the window that ends at `now`.
prune-split :
    (now w : ℕ) (ts : List ℕ)
    → (gone : List ℕ) × (ts ≡ gone ++ prune now w ts) × All (λ t. t + w ≤ now) gone
unfolding prune
prune-split now w [] = ([], refl, tt)
prune-split now w (t ∷ ts) = elim (Bool-cases (leb (t + w) now)) [
  | inl old ↦
      let (gone, e, out) = prune-split now w ts in
      (t ∷ gone, rw old (ap (λ r. t ∷ r) e), (leb→le _ _ old, out))
  | inr young ↦ ([], rw young, tt)
]

count_out :
    (lo w now : ℕ) (ts : List ℕ)
    → now ≤ lo + w
    → All (λ t. t + w ≤ now) ts
    → count (in_window lo w) ts ≡ 0
unfolding count
count_out lo w now [] h out = refl
count_out lo w now (t ∷ ts) h out = ground (arith, count_out lo w now ts h out.1)

count-le-length : (p : ℕ → Bool) (ts : List ℕ) → count p ts ≤ length ts
unfolding count
count-le-length p [] = omega arith
count-le-length p (t ∷ ts) = ground (arith, count-le-length p ts)

count_beyond : (lo w now : ℕ) → lo + w < now → count (in_window lo w) (now ∷ []) ≡ 0
unfolding count
count_beyond lo w now h = ground arith

All-later :
    {last now : ℕ} (w : ℕ) (ts : List ℕ)
    → last ≤ now
    → All (λ t. t + w ≤ last) ts
    → All (λ t. t + w ≤ now) ts
All-later w [] h out = tt
All-later w (t ∷ ts) h out = (omega arith, All-later w ts h out.1)

-- The acquisitions so far: `gone` have left the deque, `times` are still in it.
record IsLog (limit w last : ℕ) (gone times : List ℕ) : Type 0 where
  old : All (λ t. t + w ≤ last) gone
  full : (lo : ℕ) → count (in_window lo w) (gone ++ times) ≤ limit

module _ (limit w : ℕ) where
  -- Pruning moves times from the deque to those that are gone.
  IsLog-prune :
      {last now : ℕ} (gone times : List ℕ)
      → last ≤ now
      → IsLog limit w last gone times
      → (gone' : List ℕ) × (gone ++ times ≡ gone' ++ prune now w times)
        × IsLog limit w now gone' (prune now w times)
  IsLog-prune {now = now} gone times h log =
      let (g, e, out) = prune-split now w times in
      let same : gone ++ times ≡ (gone ++ g) ++ prune now w times =
        ap (λ x. gone ++ x) e ∙ sym (append_assoc gone g (prune now w times)) in
      (
        gone ++ g,
        same,
        record {
          old = All-append _ gone g (All-later w gone h log.old) out;
          full = λ lo. rw same at (log.full lo);
        },
      )

  -- A slot is taken only when fewer than `limit` times are left, so the window stays within it.
  IsLog-take :
      {now : ℕ} (gone times : List ℕ)
      → length times < limit
      → IsLog limit w now gone times
      → IsLog limit w now gone (times ++ now ∷ [])
  IsLog-take {now} gone times room log = record {
    old = log.old;
    full = λ lo.
        let p = in_window lo w in
        rw (count-append, count-append)
          (elim (Bool-cases (leb now (lo + w))) [
            | inl near ↦ omega (
              arith,
              count_out lo w now gone (leb→le _ _ near) log.old,
              count-le-length p times,
              count-le-length p (now ∷ []),
            )
            | inr far ↦ omega (
              arith,
              count_beyond lo w now (leb→lt _ _ far),
              log.full lo,
              count-append p gone times,
            )
          ]);
  }

  abbrev at_times : List ℕ → Limiter
  at_times times = record { rate_limit = limit; rate_window = w; times = times }

  run_taken :
      (now : ℕ) (times later : List ℕ)
      → ltb (length (prune now w times)) limit ≡ true
      → run (at_times times) (now ∷ later)
        ≡ now ∷ run (at_times (prune now w times ++ now ∷ [])) later
  unfolding run round settle
  run_taken now times later room = ground arith

  run_full :
      (now : ℕ) (times later : List ℕ)
      → ltb (length (prune now w times)) limit ≡ false
      → run (at_times times) (now ∷ later) ≡ run (at_times (prune now w times)) later
  unfolding run round settle
  run_full now times later full = ground arith

  regroup :
      (gone times rest : List ℕ) (now : ℕ)
      → (gone ++ (times ++ now ∷ [])) ++ rest ≡ (gone ++ times) ++ now ∷ rest
  regroup gone times rest now = simp append_assoc

  run-keeps :
      (readings : List ℕ) {last : ℕ} (gone times : List ℕ)
      → IsMonotone last readings
      → IsLog limit w last gone times
      → (lo : ℕ) → count (in_window lo w) ((gone ++ times) ++ run (at_times times) readings) ≤ limit
  unfolding run
  run-keeps [] gone times m log lo = rw append-nil (log.full lo)
  run-keeps (now ∷ later) gone times m log lo =
      let (gone', same, log') = IsLog-prune gone times m.0 log in
      let left = prune now w times in
      rw same (elim (Bool-cases (ltb (length left) limit)) [
        | inl room ↦ rw (run_taken now times later room) (
            rw (regroup gone' left _ now) at (
              run-keeps later gone' (left ++ now ∷ []) m.1
                (IsLog-take gone' left (ltb→lt _ _ room) log') lo))
        | inr full ↦ rw (run_full now times later full) (run-keeps later gone' left m.1 log' lo)
      ])

-- On a new limiter whose clock does not go back, at most `rate_limit` slots are taken in any window
-- of length `rate_window`, over all rounds of all tasks.
pub run-strict :
    (rate window : ℤ) (l : Limiter) (readings : List ℕ) (lo : ℕ)
    → init rate window ≡ some l
    → IsMonotone 0 readings
    → count (in_window lo l.rate_window) (run l readings) ≤ l.rate_limit
unfolding init count
run-strict (pos (suc n)) (pos (suc w)) l readings lo built m =
    subst (λ x. count (in_window lo x.rate_window) (run x readings) ≤ x.rate_limit)
      (some-injective _ _ built)
      (run-keeps (suc n) (suc w) readings [] [] m (record { old = tt; full = λ a. omega arith }) lo)
run-strict _ _ l readings lo built m = cc
