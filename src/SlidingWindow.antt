-- ===== src/SlidingWindow.antt =====
-- core/rate_limit.py: `StrictSlidingWindowLimiter`.
--
-- Clock readings and durations are natural numbers of ticks. A round of the loop in `acquire` runs
-- under the lock, so rounds of any number of tasks form one sequence; `run` is such a sequence, and
-- `acquire` is one task alone, whose sleep ends exactly when it asked.
pub mod Window
pub mod Wait
use claude_chakra.Prelude.{
  ℕ, zero, suc, ◌+◌, ◌-◌, Option, none, some, List, [], ◌∷◌, ◌++◌, ltb, leb, if◌then◌else◌, length,
  get_or,
}
use claude_chakra.Prelude.Int.{ℤ, pos, negsuc}

pub record Limiter : Type 0 where
  pub rate_limit : ℕ
  pub rate_window : ℕ
  pub times : List ℕ

-- `none` is the ValueError of a limit or a window that is not positive.
unfoldable pub init : ℤ → ℤ → Option Limiter
init (pos (suc n)) (pos (suc w)) =
    some (record { rate_limit = suc n; rate_window = suc w; times = [] })
init _ _ = none

-- The inner loop: times at or before `now - window` leave from the left. The comparison is written
-- without the subtraction, which would stop at 0.
unfoldable pub prune : ℕ → ℕ → List ℕ → List ℕ
prune now window [] = []
prune now window (t ∷ ts) =
    let rest = prune now window ts in if leb (t + window) now then rest else t ∷ ts

-- The decision of a round after the pruning: `none` when the slot is taken, and otherwise the time
-- to wait, max(0.0, oldest + window - now).
unfoldable pub settle : ℕ → Limiter → Option ℕ × Limiter
settle now l =
    if ltb (length l.times) l.rate_limit
    then (none, record l { times = l.times ++ now ∷ [] })
    else (some (get_or l.times 0 0 + l.rate_window - now), l)

unfoldable pub round : ℕ → Limiter → Option ℕ × Limiter
round now l = settle now (record l { times = prune now l.rate_window l.times })

-- The `while True` of one task on its own; `none` in the result says that the fuel ran out.
unfoldable pub acquire : ℕ → ℕ → Limiter → Option ℕ × Limiter
acquire zero now l = (none, l)
acquire (suc fuel) now l =
    let (wait, l') = round now l in
    elim wait [ none ↦ (some now, l') | some w ↦ acquire fuel (now + w) l' ]

-- Rounds of any tasks at the given readings: the readings at which a slot was taken.
unfoldable pub run : Limiter → List ℕ → List ℕ
run l [] = []
run l (now ∷ later) =
    let (wait, l') = round now l in
    let rest = run l' later in elim wait [ none ↦ now ∷ rest | some w ↦ rest ]
