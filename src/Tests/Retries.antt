-- ===== src/Tests/Retries.antt =====
-- Retries of a call that fails twice and then returns, and the limiters of two scopes.
use claude_chakra.Prelude.{
  min, ◌*◌, ◌+◌, is_empty, ℕ, zero, suc, ◌≡◌, refl, arith, true, some, [], ◌∷◌, codes, Text,
  if◌then◌else◌, text_eq,
}
use claude_chakra.Prelude.Int.{pos}
use claude_chakra.Retry.{
  or_default, httpx_status, Outcome, returned, raised, Policy, backoff, Run, World,
  GlobalRateLimiter, execute_with_retry, is_blocked, remaining_wait, sleep, set_blocked,
  get_scoped_instance, get_scope, matches_config, Scopes,
}
use claude_chakra.Retry.Results.{execute_with_retry-decides, Ends, IsReady}
use claude_chakra.Retry.Backoff.{backoff_doubles, set_blocked-is_blocked}
use claude_chakra.Retry.Registry.{scoped-matches, scoped-again}

abbrev limiter : GlobalRateLimiter
limiter = record {
  rate_limit = pos 2;
  rate_window = pos 10;
  max_concurrency = pos 5;
  proactive = record { rate_limit = 2; rate_window = 10; times = [] };
  blocked_until = 4;
}

abbrev world : World
world = record { clock = 3; limiter = limiter }

world-IsReady : IsReady world
world-IsReady = record { positive = omega arith; bounded = omega arith; past = tt }

abbrev policy : Policy
policy = record { max_retries = 3; base_delay = 2; max_delay = 60 }

-- 503, then 429, and then the answer 7.
abbrev upstream : ℕ → Outcome ℕ × ℕ
upstream zero = (raised (httpx_status 503), 1)
upstream (suc zero) = (raised (httpx_status 429), 1)
upstream _ = (returned 7, 1)

execute_with_retry-decides_example :
    (r : Run ℕ) × (execute_with_retry policy upstream (λ _. 1) world ≡ some r)
    × Ends policy upstream (λ _. 1) 3 0 3 r
execute_with_retry-decides_example =
    execute_with_retry-decides policy upstream (λ _. 1) world world-IsReady

backoff_doubles_example :
    (backoff policy 0 3 ≡ min 2 60 + 3) × (backoff policy 3 3 ≡ min (2 * backoff policy 2 0) 60 + 3)
backoff_doubles_example = backoff_doubles policy 2 3

set_blocked-is_blocked_example :
    (is_blocked (sleep 8 (set_blocked 9 world)) ≡ true) × (remaining_wait (set_blocked 9 world) ≡ 9)
set_blocked-is_blocked_example = set_blocked-is_blocked world 9 8

abbrev registered : Scopes
registered = (codes "nim", limiter) ∷ []

scoped-matches_example :
    (matches_config limiter (pos 2) (pos 10) (pos 5) ≡ true)
    × ((other : Text)
        → get_scope registered other
          ≡ (if text_eq (codes "nim") other then some limiter else get_scope registered other))
unfolding get_scoped_instance get_scope is_empty text_eq or_default
scoped-matches_example =
    scoped-matches (codes "nim") (some (pos 2)) (some (pos 10)) (pos 5) registered registered
      limiter refl

scoped-again_example :
    get_scoped_instance (codes "nim") (some (pos 2)) (some (pos 10)) (pos 5) registered
    ≡ some (limiter, registered)
unfolding get_scoped_instance get_scope is_empty text_eq or_default
scoped-again_example =
    scoped-again (codes "nim") (some (pos 2)) (some (pos 10)) (pos 5) registered registered limiter
      refl
