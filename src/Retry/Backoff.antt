-- ===== src/Retry/Backoff.antt =====
-- The delays between attempts, and which failures are retried.
use native.Mathlib.Nat.{pow-suc, pow-zero}
use native.Mathlib.Numerals.{towards_suc}
use claude_chakra.Prelude.{ℕ, ◌+◌, ◌*◌, ◌^◌, ◌≤◌, min, ◌≡◌, ◌⊎◌, inl, none, some, arith, ltb}
use claude_chakra.Retry.{
  Exc, openai_rate_limit, httpx_status, openai_api, other, retryable_upstream_status, Policy,
  backoff, World, set_blocked, is_blocked, remaining_wait, sleep,
}

-- The statuses that are worth another attempt: 429, and any server error.
abbrev pub IsTransient : ℕ → Type 0
IsTransient code = (code ≡ 429) ⊎ ((500 ≤ code) × (code ≤ 599))

-- The status to retry on, of any kind of exception, is transient.
pub retryable-IsTransient :
    (e : Exc) (code : ℕ) → retryable_upstream_status e ≡ some code → IsTransient code
unfolding retryable_upstream_status
retryable-IsTransient openai_rate_limit code h = inl (ground arith)
retryable-IsTransient (httpx_status c) code h = ground arith
retryable-IsTransient (openai_api none) code h = cc
retryable-IsTransient (openai_api (some c)) code h = ground arith
retryable-IsTransient (other tag) code h = cc

double : (b a : ℕ) → b * 2 ^ (a + 1) ≡ b * 2 ^ a + b * 2 ^ a
double b a = simp towards_suc (rw pow-suc (grind arith))

-- What follows the first failed attempt is the base delay and what is drawn; what follows a later
-- one is twice the delay before it, without what was drawn there, and what is drawn now. The cap
-- holds for the part that is not drawn.
pub backoff_doubles :
    (p : Policy) (a drawn : ℕ)
    → (backoff p 0 drawn ≡ min p.base_delay p.max_delay + drawn)
      × (backoff p (a + 1) drawn ≡ min (2 * backoff p a 0) p.max_delay + drawn)
unfolding backoff
backoff_doubles p a drawn = (omega (arith, pow-zero 2), omega (arith, double p.base_delay a))

-- A block holds for exactly its length: a sleep ends it exactly when it is as long.
pub set_blocked-is_blocked :
    (w : World) (seconds d : ℕ)
    → (is_blocked (sleep d (set_blocked seconds w)) ≡ ltb d seconds)
      × (remaining_wait (set_blocked seconds w) ≡ seconds)
unfolding is_blocked set_blocked remaining_wait
set_blocked-is_blocked w seconds d = ground arith
