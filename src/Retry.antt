-- ===== src/Retry.antt =====
-- providers/rate_limit.py: which failures are retried, the limiter of one provider, and
-- `execute_with_retry`.
--
-- Clock readings and durations are natural numbers of ticks. `World` is what one task sees: the
-- clock, and the limiter; a sleep moves the clock on by exactly its length. The semaphore behind
-- `concurrency_slot` is asyncio's and is not modelled; log lines and trace events are left out.
pub mod Results
pub mod Backoff
pub mod Registry
use mathlib.Core.Option
use claude_chakra.Prelude.{
  ℕ, zero, suc, ◌+◌, ◌-◌, ◌*◌, ◌^◌, min, Bool, true, false, ◌&&◌, ◌||◌, Option, none, some, List,
  [], ◌∷◌, ltb, leb, ◌==◌, if◌then◌else◌, Text, text_eq, is_empty,
}
use claude_chakra.Prelude.Int.{ℤ, pos, negsuc, eqℤ}
use claude_chakra.SlidingWindow
use claude_chakra.SlidingWindow.{Limiter}

-- The classes of exceptions that the code tells apart. openai.RateLimitError is one of the
-- openai.APIErrors, and is tested first; an APIError may have no integer status.
pub data Exc : Type 0 where
  openai_rate_limit : Exc
  httpx_status : ℕ → Exc
  openai_api : Option ℕ → Exc
  other : ℕ → Exc

unfoldable pub upstream_http_retryable : ℕ → Bool
upstream_http_retryable code = (code == 429) || (leb 500 code && leb code 599)

server_status : ℕ → Option ℕ
server_status code = if leb 500 code && leb code 599 then some code else none

unfoldable pub retryable_upstream_status : Exc → Option ℕ
unfolding upstream_http_retryable server_status
retryable_upstream_status openai_rate_limit = some 429
retryable_upstream_status (httpx_status code) =
    if upstream_http_retryable code then some code else none
retryable_upstream_status (openai_api none) = none
retryable_upstream_status (openai_api (some code)) = server_status code
retryable_upstream_status (other tag) = none

pub record GlobalRateLimiter : Type 0 where
  pub rate_limit : ℤ
  pub rate_window : ℤ
  pub max_concurrency : ℤ
  pub proactive : Limiter
  pub blocked_until : ℕ

with_proactive : ℤ → ℤ → ℤ → Option Limiter → Option GlobalRateLimiter
with_proactive limit window conc none = none
with_proactive limit window conc (some l) = some (record {
  rate_limit = limit;
  rate_window = window;
  max_concurrency = conc;
  proactive = l;
  blocked_until = 0;
})

-- `none` is the ValueError of an argument that is not positive.
unfoldable pub init : ℤ → ℤ → ℤ → Option GlobalRateLimiter
unfolding with_proactive
init limit window (pos (suc c)) =
    with_proactive limit window (pos (suc c)) (SlidingWindow.init limit window)
init limit window _ = none

unfoldable pub matches_config : GlobalRateLimiter → ℤ → ℤ → ℤ → Bool
matches_config g limit window conc =
    eqℤ g.rate_limit limit && eqℤ g.rate_window window && eqℤ g.max_concurrency conc

-- `value or default`.
unfoldable pub or_default : ℤ → Option ℤ → ℤ
or_default d none = d
or_default d (some (pos zero)) = d
or_default d (some v) = v

-- The arguments count only where there is no instance yet.
unfoldable pub get_instance :
    Option ℤ → Option ℤ → ℤ → Option GlobalRateLimiter → Option GlobalRateLimiter
get_instance limit window conc none =
    init (or_default (pos 40) limit) (or_default (pos 60) window) conc
get_instance limit window conc (some g) = some g

-- `_scoped_instances`, the newest entry of a scope first.
abbrev pub Scopes : Type 0
Scopes = List (Text × GlobalRateLimiter)

unfoldable pub get_scope : Scopes → Text → Option GlobalRateLimiter
get_scope [] scope = none
get_scope ((s, g) ∷ rest) scope = if text_eq s scope then some g else get_scope rest scope

store_scope : Scopes → Text → Option GlobalRateLimiter → Option (GlobalRateLimiter × Scopes)
store_scope scopes scope none = none
store_scope scopes scope (some g) = some (g, (scope, g) ∷ scopes)

reuse : Scopes → Text → ℤ → ℤ → ℤ → Option GlobalRateLimiter → Option (GlobalRateLimiter × Scopes)
unfolding store_scope
reuse scopes scope limit window conc none = store_scope scopes scope (init limit window conc)
reuse scopes scope limit window conc (some g) =
    if matches_config g limit window conc
    then some (g, scopes)
    else store_scope scopes scope (init limit window conc)

-- `none` is a ValueError, of the empty scope or of the constructor.
unfoldable pub get_scoped_instance :
    Text → Option ℤ → Option ℤ → ℤ → Scopes → Option (GlobalRateLimiter × Scopes)
unfolding reuse matches_config
get_scoped_instance scope limit window conc scopes =
    if is_empty scope
    then none
    else reuse scopes scope (or_default (pos 40) limit) (or_default (pos 60) window) conc
        (get_scope scopes scope)

pub record World : Type 0 where
  pub clock : ℕ
  pub limiter : GlobalRateLimiter

unfoldable pub set_blocked : ℕ → World → World
set_blocked seconds w = record w {
  limiter = record w.limiter { blocked_until = w.clock + seconds };
}

abbrev pub sleep : ℕ → World → World
sleep seconds w = record w { clock = w.clock + seconds }

unfoldable pub is_blocked : World → Bool
is_blocked w = ltb w.clock w.limiter.blocked_until

unfoldable pub remaining_wait : World → ℕ
remaining_wait w = w.limiter.blocked_until - w.clock

-- The reactive part of `wait_if_blocked`.
reactive : World → Bool × World
reactive w =
    if ltb w.clock w.limiter.blocked_until
    then (true, sleep (w.limiter.blocked_until - w.clock) w)
    else (false, w)

took_slot : World → Option ℕ × Limiter → Option World
took_slot w (none, l) = none
took_slot w (some t, l) = some (record { clock = t; limiter = record w.limiter { proactive = l } })

-- `_acquire_proactive_slot`, with the two rounds that are enough for a task on its own.
acquire_slot : World → Option World
unfolding took_slot
acquire_slot w = took_slot w (SlidingWindow.acquire 2 w.clock w.limiter.proactive)

-- `none` would say that the rounds of `acquire` ran out.
unfoldable pub wait_if_blocked : World → Option (Bool × World)
unfolding reactive acquire_slot
wait_if_blocked w = let (waited, w') = reactive w in Option.map (λ x. (waited, x)) (acquire_slot w')

pub data Outcome (A : Type 0) : Type 0 where
  returned : A → Outcome A
  raised : Exc → Outcome A

-- The keyword arguments of `execute_with_retry`.
pub record Policy : Type 0 where
  pub max_retries : ℕ
  pub base_delay : ℕ
  pub max_delay : ℕ

-- The delay after a failed attempt; `drawn` is what `random.uniform(0, jitter)` gives. It is added to
-- the capped delay.
unfoldable pub backoff : Policy → ℕ → ℕ → ℕ
backoff p attempt drawn = min (p.base_delay * 2 ^ attempt) p.max_delay + drawn

-- `fn` says how the call of an attempt ends and how long it takes, `jitter` what is drawn after it.
-- The result has the outcome and the clock readings at which `fn` was called.
pub record Run (A : Type 0) : Type 0 where
  pub outcome : Outcome A
  pub calls : List ℕ
  pub world : World

module _ {A : Type 0} (p : Policy) (fn : ℕ → Outcome A × ℕ) (jitter : ℕ → ℕ) where
  -- What follows a call that failed at `w`, by the status to retry on, if any; `next` runs the
  -- attempts that are left.
  after_failure : Option ℕ → Exc → ℕ → World → (World → Option (Run A)) → Option (Run A)
  after_failure none e attempt w next = some (record { outcome = raised e; calls = []; world = w })
  after_failure (some status) e attempt w next =
      if leb p.max_retries attempt
      then some (record { outcome = raised e; calls = []; world = w })
      else (let delay = backoff p attempt (jitter attempt) in
          next (sleep delay (set_blocked delay w)))

  after_call : ℕ → World → Outcome A → (World → Option (Run A)) → Option (Run A)
  unfolding after_failure
  after_call attempt w (returned a) next =
      some (record { outcome = returned a; calls = []; world = w })
  after_call attempt w (raised e) next =
      after_failure (retryable_upstream_status e) e attempt w next

  log_call : ℕ → Option (Run A) → Option (Run A)
  log_call t none = none
  log_call t (some r) = some (record r { calls = t ∷ r.calls })

  -- The `for attempt in range(total_attempts)` loop from `attempt` on, with `left` attempts to
  -- make. `none` is a wait whose rounds ran out, or the failed assertion after a loop that made no
  -- attempt.
  loop : ℕ → ℕ → World → Option (Run A)
  unfolding after_call log_call
  loop zero attempt w = none
  loop (suc left) attempt w =
      let again = loop left (attempt + 1) in
      Option.bind (wait_if_blocked w) λ (waited, w').
        log_call w'.clock (after_call attempt (sleep (fn attempt).1 w') (fn attempt).0 again)

  unfoldable pub execute_with_retry : World → Option (Run A)
  unfolding loop
  execute_with_retry w = loop (1 + p.max_retries) 0 w
