-- ===== src/Sse/Conformance.antt =====
-- Every response of the transport meets the stream contract.
use mathlib.Core.Path.{subst}
use mathlib.Core.Option.{some-injective}
use claude_chakra.Prelude.{
  ℕ, ◌≡◌, refl, sym, ◌∙◌, inl, inr, Bool, true, some, List, [], ◌∷◌, ◌++◌, arith, Option-cases,
  Text, any, is_nil,
}
use claude_chakra.Sse.Event.{Event, message_start}
use claude_chakra.Sse.Builder.{Builder, new_builder, start_message}
use claude_chakra.Sse.Contract.{Check, new_check, steps, ends_with_stop, holds}
use claude_chakra.Sse.Calls.{Call, perform, run, after, Ending, ending, conclude, respond}
use claude_chakra.Sse.Simulation.{InStep, InStep-new, steps-append}
use claude_chakra.Sse.Emission.{Simulated, silent}
use claude_chakra.Sse.Composed.{perform-Simulated}
use claude_chakra.Sse.Endings.{
  Settled, Settled-after, ending-Settled, ends_with_stop-append, ends_with_stop-ending, tolerates,
}

-- Any run of calls whose guards hold passes the checker.
pub run-Simulated :
    (allow : Bool) (calls : List Call) (b : Builder) (c : Check) (r : List Event × Builder)
    → InStep b.blocks c
    → run calls b ≡ some r
    → Simulated allow c r
unfolding run
run-Simulated allow [] b c r s h =
    subst (Simulated allow c) (some-injective _ _ h) (silent allow b c s)
run-Simulated allow (call ∷ calls) b c r s h = elim (Option-cases (perform call b)) [
  | inl bad ↦ absurd (ground arith)
  | inr (x, e) ↦ elim (Option-cases (run calls x.1)) [
    | inl bad ↦ absurd (ground arith)
    | inr (y, e') ↦
        let first = perform-Simulated allow call b c x s e in
        let rest = run-Simulated allow calls x.1 first.after y first.in_step e' in
        subst (Simulated allow c) (some-injective _ _ (sym (joined call calls b x y e e') ∙ h))
          (record {
            after = rest.after;
            passes = steps-append allow x.0 y.0 c first.after first.passes ∙ rest.passes;
            in_step = rest.in_step;
          })
  ]
]
  where
    joined :
        (call : Call) (calls : List Call) (b : Builder) (x y : List Event × Builder)
        → perform call b ≡ some x
        → run calls x.1 ≡ some y
        → run (call ∷ calls) b ≡ some (x.0 ++ y.0, y.1)
    joined call calls b x y e e' = rw e (rw (e', after) refl)

-- The stream of a response whose calls all pass their guards.
streamed :
    (calls : List Call) (e : Ending) (b : Builder) (r : List Event × Builder)
    → run calls b ≡ some r
    → some (message_start b.message_id b.model b.input_tokens ∷ (r.0 ++ (ending e r.1).0))
      ≡ respond calls e b
unfolding respond start_message conclude
streamed calls e b r ran = rw ran refl

start_and-holds :
    (allow : Bool) (es : List Event) (b : Builder)
    → Settled allow new_check es
    → ends_with_stop es ≡ true
    → holds allow (message_start b.message_id b.model b.input_tokens ∷ es) ≡ true
unfolding holds steps any is_nil
start_and-holds allow es b s ends =
    rw (ends_with_stop-append (message_start b.message_id b.model b.input_tokens ∷ []) es ends)
      (rw s.passes (rw s.closed (rw s.seen refl)))

-- What the transport streams meets the contract: for any calls whose guards hold, the stream of a
-- completed response does, and that of a failed one does where error events are allowed. So there is
-- a `message_start`, the last event is a `message_stop`, no index is used twice, each delta fits the
-- open block that it names, and at the end every block is closed and at least one was seen.
pub respond-holds :
    (allow : Bool) (calls : List Call) (e : Ending) (message_id model : Text) (tokens : ℕ)
    (events : List Event)
    → tolerates allow e ≡ true
    → respond calls e (new_builder message_id model tokens) ≡ some events
    → holds allow events ≡ true
unfolding respond
respond-holds allow calls e message_id model tokens events t h =
    elim (Option-cases (run calls (new_builder message_id model tokens))) [
      | inl bad ↦ absurd (ground arith)
      | inr (r, ran) ↦
          let b = new_builder message_id model tokens in
          let first = run-Simulated allow calls b new_check r InStep-new ran in
          let tail = (ending e r.1).0 in
          let s =
            Settled-after allow new_check first.after r.0 tail first.passes
              (ending-Settled allow r.1 first.after first.in_step e t) in
          subst (λ x. holds allow x ≡ true) (some-injective _ _ (streamed calls e b r ran ∙ h))
            (start_and-holds allow (r.0 ++ tail) b s
              (ends_with_stop-append r.0 tail (ends_with_stop-ending e r.1)))
    ]
