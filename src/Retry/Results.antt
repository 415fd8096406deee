-- ===== src/Retry/Results.antt =====
-- How `execute_with_retry` ends: by the first result that decides, after at most
-- `1 + max_retries` calls.
use mathlib.Core.Option
use claude_chakra.Prelude.{
  ℕ, zero, suc, ◌+◌, ◌-◌, ◌≤◌, ◌<◌, ◌≡◌, refl, inl, inr, Bool, true, false, Option, none, some,
  List, [], ◌∷◌, arith, tests, Bool-cases, Option-cases, leb, ltb, length, le→leb,
}
use claude_chakra.SlidingWindow.Wait.{IsValid, IsValid-later, acquire-total}
use claude_chakra.Retry.{
  Exc, retryable_upstream_status, World, set_blocked, sleep, acquire_slot, wait_if_blocked, Outcome,
  returned, raised, Policy, backoff, Run, after_call, log_call, loop, execute_with_retry, reactive,
}

-- The deque of the provider's limiter is valid at the task's clock.
abbrev pub IsReady : World → Type 0
IsReady w = IsValid w.clock w.limiter.proactive

-- What a wait from `w` to `w'` is like: the clock does not go back, and the reactive block is over.
record HasWaited (w w' : World) : Type 0 where
  ready : IsReady w'
  later : w.clock ≤ w'.clock
  unblocked : w.limiter.blocked_until ≤ w'.clock

slot-total :
    (w : World)
    → IsReady w
    → (w' : World) × (acquire_slot w ≡ some w') × (w.clock ≤ w'.clock) × IsReady w'
unfolding acquire_slot
slot-total w v =
    let (t, l, e, from, to, v') = acquire-total w.clock w.limiter.proactive v in
    (record { clock = t; limiter = record w.limiter { proactive = l } }, rw e, from, v')

wait-total :
    (w : World) → IsReady w → (x : Bool × World) × (wait_if_blocked w ≡ some x) × HasWaited w x.1
unfolding wait_if_blocked reactive
wait-total w v = elim (Bool-cases (ltb w.clock w.limiter.blocked_until)) [
  | inl blocked ↦
      let woken = sleep (w.limiter.blocked_until - w.clock) w in
      let (w', e, from, v') = slot-total woken (IsValid-later (omega arith) v) in
      (
        (true, w'),
        rw blocked (rw e),
        record {
          ready = v';
          later = omega (tests, from);
          unblocked = omega (tests, from, blocked);
        },
      )
  | inr free ↦
      let (w', e, from, v') = slot-total w v in
      (
        (false, w'),
        rw free (rw e),
        record { ready = v'; later = from; unblocked = omega (tests, free, from) },
      )
]

module _ {A : Type 0} (p : Policy) (fn : ℕ → Outcome A × ℕ) (jitter : ℕ → ℕ) where
  -- A failure that is worth another attempt yields to what the other attempts give.
  abbrev pub yield_failure : Option ℕ → Exc → Outcome A → Outcome A
  yield_failure none e rest = raised e
  yield_failure (some status) e rest = rest

  abbrev pub yield_to : Outcome A → Outcome A → Outcome A
  yield_to (returned a) rest = returned a
  yield_to (raised e) rest = yield_failure (retryable_upstream_status e) e rest

  -- What the calls decide, with no clock and no limiter: the result of the first attempt that
  -- returns or fails for good, or else of the last one.
  pub decide : ℕ → ℕ → Outcome A
  decide zero attempt = (fn attempt).0
  decide (suc left) attempt = let rest = decide left (attempt + 1) in yield_to (fn attempt).0 rest

  -- Each call comes no earlier than the backoff after the one before it.
  abbrev pub IsSpaced : ℕ → ℕ → List ℕ → Type 0
  IsSpaced attempt earliest [] = Unit
  IsSpaced attempt earliest (t ∷ ts) =
      (earliest ≤ t) × IsSpaced (attempt + 1) (t + backoff p attempt (jitter attempt)) ts

  -- How the attempts from `attempt` on end, with `left` of them after the first.
  pub record Ends (left attempt from : ℕ) (r : Run A) : Type 0 where
    pub outcome : r.outcome ≡ decide left attempt
    pub few : length r.calls ≤ 1 + left
    pub spaced : IsSpaced attempt from r.calls
    pub ready : IsReady r.world

  IsSpaced-earlier :
      (attempt from earlier : ℕ) (ts : List ℕ)
      → earlier ≤ from
      → IsSpaced attempt from ts
      → IsSpaced attempt earlier ts
  IsSpaced-earlier attempt from earlier [] h s = tt
  IsSpaced-earlier attempt from earlier (t ∷ ts) h s = (omega arith, s.1)

  leb_no : (a b : ℕ) → b < a → leb a b ≡ false
  leb_no a b h = ground arith

  -- What follows the call of `attempt` that ended at `w`, with `few` more calls at most.
  record Follows (few attempt : ℕ) (w : World) (expected : Outcome A) (r : Run A) : Type 0 where
    outcome : r.outcome ≡ expected
    few_calls : length r.calls ≤ few
    spaced : IsSpaced (attempt + 1) (w.clock + backoff p attempt (jitter attempt)) r.calls
    ready : IsReady r.world

  -- The run stops here, with the outcome `o`.
  abbrev stop : World → Outcome A → Run A
  stop w o = record { outcome = o; calls = []; world = w }

  stop-Follows :
      (few attempt : ℕ) (w : World) (o : Outcome A) → IsReady w → Follows few attempt w o (stop w o)
  stop-Follows few attempt w o v = record {
    outcome = refl;
    few_calls = omega arith;
    spaced = tt;
    ready = v;
  }

  module _ (attempt : ℕ) (w : World) (v : IsReady w) (next : World → Option (Run A)) where
    last_call :
        (o : Outcome A)
        → p.max_retries ≤ attempt
        → (r : Run A) × (after_call p fn jitter attempt w o next ≡ some r) × Follows 0 attempt w o r
    unfolding after_call
    last_call (returned a) h = (stop w (returned a), refl, stop-Follows 0 attempt w (returned a) v)
    last_call (raised e) h = elim (Option-cases (retryable_upstream_status e)) [
      | inl final ↦ (stop w (raised e), rw final, stop-Follows 0 attempt w (raised e) v)
      | inr (status, again) ↦
          (stop w (raised e), rw again (rw (le→leb _ _ h)), stop-Follows 0 attempt w (raised e) v)
    ]

    -- The state after the backoff that follows a retryable failure.
    abbrev backed_off : World
    backed_off = let delay = backoff p attempt (jitter attempt) in sleep delay (set_blocked delay w)

    earlier_call :
        (left : ℕ) (o : Outcome A)
        → attempt < p.max_retries
        → ((r : Run A) × (next backed_off ≡ some r) × Ends left (attempt + 1) backed_off.clock r)
        → (r : Run A) × (after_call p fn jitter attempt w o next ≡ some r)
          × Follows (1 + left) attempt w (yield_to o (decide left (attempt + 1))) r
    unfolding after_call set_blocked
    earlier_call left (returned a) h rest =
        (stop w (returned a), refl, stop-Follows (1 + left) attempt w (returned a) v)
    earlier_call left (raised e) h rest = elim (Option-cases (retryable_upstream_status e)) [
      | inl final ↦
          (stop w (raised e), rw final, rw final (stop-Follows (1 + left) attempt w (raised e) v))
      | inr (status, again) ↦
          let (r, e', ends) = rest in
          (
            r,
            rw again (rw (leb_no _ _ h) e'),
            rw again (record {
              outcome = ends.outcome;
              few_calls = ends.few;
              spaced = IsSpaced-earlier (attempt + 1) _ _ r.calls (omega arith) ends.spaced;
              ready = ends.ready;
            }),
          )
    ]

  loop-total :
      (left attempt : ℕ) (w : World)
      → attempt + left ≡ p.max_retries
      → IsReady w
      → (r : Run A) × (loop p fn jitter (suc left) attempt w ≡ some r) × Ends left attempt w.clock r
  unfolding loop log_call decide set_blocked Option.bind
  loop-total zero attempt w h v =
      let ((waited, w'), e, has) = wait-total w v in
      let ended = sleep (fn attempt).1 w' in
      let ready = IsValid-later {l = ended.limiter.proactive} (omega arith) has.ready in
      let (r, e', f) =
        last_call attempt ended ready (loop p fn jitter zero (attempt + 1)) (fn attempt).0
          (omega arith) in
      (
        record r { calls = w'.clock ∷ r.calls },
        rw e (rw e'),
        record {
          outcome = f.outcome;
          few = omega (arith, f.few_calls);
          spaced = (has.later, IsSpaced-earlier (attempt + 1) _ _ r.calls (omega arith) f.spaced);
          ready = f.ready;
        },
      )
  loop-total (suc left) attempt w h v =
      let ((waited, w'), e, has) = wait-total w v in
      let ended = sleep (fn attempt).1 w' in
      let ready = IsValid-later {l = ended.limiter.proactive} (omega arith) has.ready in
      let again = backed_off attempt ended ready (loop p fn jitter (suc left) (attempt + 1)) in
      let rest =
        loop-total left (attempt + 1) again (omega arith)
          (IsValid-later {l = ended.limiter.proactive} (omega arith) ready) in
      let (r, e', f) =
        earlier_call attempt ended ready (loop p fn jitter (suc left) (attempt + 1)) left
          (fn attempt).0 (omega arith) rest in
      (
        record r { calls = w'.clock ∷ r.calls },
        rw e (rw e'),
        record {
          outcome = f.outcome;
          few = omega (arith, f.few_calls);
          spaced = (has.later, IsSpaced-earlier (attempt + 1) _ _ r.calls (omega arith) f.spaced);
          ready = f.ready;
        },
      )

  -- From a valid limiter the retry loop always ends: with the outcome of the first attempt that
  -- returns or fails for good, or of the last one, after at most `1 + max_retries` calls, of which
  -- each comes no earlier than the backoff after the one before.
  pub execute_with_retry-decides :
      (w : World)
      → IsReady w
      → (r : Run A) × (execute_with_retry p fn jitter w ≡ some r) × Ends p.max_retries 0 w.clock r
  unfolding execute_with_retry
  execute_with_retry-decides w v =
      rw (suc_of p.max_retries) (loop-total p.max_retries 0 w (omega arith) v)
    where
      suc_of : (n : ℕ) → 1 + n ≡ suc n
      suc_of n = omega arith
