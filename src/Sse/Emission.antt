-- ===== src/Sse/Emission.antt =====
-- What each call on the builder emits passes the checker, and keeps the two in step.
use claude_chakra.Prelude.{
  ℕ, ◌+◌, ◌≡◌, refl, ◌∙◌, inl, inr, Bool, true, false, some, List, [], ◌∷◌, arith, Bool-cases, Text,
  is_nil, strip, is_empty,
}
use claude_chakra.Prelude.Int.{pos, eqℤ_iff}
use claude_chakra.Sse.Event.{
  ContentBlock, Delta, Event, content_block_start, content_block_delta, content_block_stop,
}
use claude_chakra.Sse.Builder.{
  Builder, Emits, ◌then_yield◌, when, start_thinking_block, start_text_block, stop_thinking_block,
  stop_text_block, emit_thinking_delta, emit_text_delta, start_tool_block,
}
use claude_chakra.Sse.Contract.{Kind, storage_kind, allows, Check, kind_at, step, steps}
use claude_chakra.Sse.Calls.{is_started}
use claude_chakra.Sse.Simulation.{
  InStep, with_open, without, steps-append, step_start, step_delta, step_stop,
}
use claude_chakra.Sse.Moves.{
  InStep-start_thinking, InStep-start_text, InStep-stop_thinking, InStep-stop_text, InStep-whole,
}
use claude_chakra.Sse.Starting.{InStep-start_tool}

-- The events pass the checker from `c` on, and leave it in step with the builder.
pub record Simulated (allow : Bool) (c : Check) (r : List Event × Builder) : Type 0 where
  pub after : Check
  pub passes : steps allow r.0 c ≡ some after
  pub in_step : InStep r.1.blocks after

module _ (allow : Bool) where
  pub silent : (b : Builder) (c : Check) → InStep b.blocks c → Simulated allow c ([], b)
  unfolding steps
  silent b c s = record { after = c; passes = refl; in_step = s }

  pub one_event :
      (e : Event) (b : Builder) (c c' : Check)
      → step allow e c ≡ some c'
      → InStep b.blocks c'
      → Simulated allow c (e ∷ [], b)
  unfolding steps
  one_event e b c c' h s = record { after = c'; passes = rw h refl; in_step = s }

  -- Two parts in a row.
  pub Simulated-then :
      (m k : Emits) (b : Builder) (c : Check)
      → Simulated allow c (m b)
      → ((c' : Check) → InStep (m b).1.blocks c' → Simulated allow c' (k (m b).1))
      → Simulated allow c ((m then_yield k) b)
  Simulated-then m k b c p q =
      let r = q p.after p.in_step in
      record {
        after = r.after;
        passes = steps-append allow (m b).0 (k (m b).1).0 c p.after p.passes ∙ r.passes;
        in_step = r.in_step;
      }

  pub Simulated-when :
      (test : Builder → Bool) (m : Emits) (b : Builder) (c : Check)
      → InStep b.blocks c
      → (test b ≡ true → Simulated allow c (m b))
      → Simulated allow c (when test m b)
  Simulated-when test m b c s p = elim (Bool-cases (test b)) [
    | inl on ↦ rw on (p on)
    | inr off ↦ rw off (silent b c s)
  ]

  module _ (b : Builder) (c : Check) (s : InStep b.blocks c) where
    pub start_thinking :
        b.blocks.thinking_started ≡ false → Simulated allow c (start_thinking_block b)
    unfolding start_thinking_block storage_kind
    start_thinking off =
        one_event _ _ c _
          (step_start allow b.blocks c s (ContentBlock.thinking []) Kind.thinking refl)
          (InStep-start_thinking b.blocks c s off)

    pub start_text : b.blocks.text_started ≡ false → Simulated allow c (start_text_block b)
    unfolding start_text_block storage_kind strip is_empty
    start_text off =
        one_event _ _ c _ (step_start allow b.blocks c s (ContentBlock.text []) Kind.text refl)
          (InStep-start_text b.blocks c s off)

    pub stop_thinking : b.blocks.thinking_started ≡ true → Simulated allow c (stop_thinking_block b)
    unfolding stop_thinking_block
    stop_thinking on =
        one_event _ _ c _ (step_stop allow b.blocks.thinking_index Kind.thinking c (s.thinking on))
          (InStep-stop_thinking b.blocks c s on)

    pub stop_text : b.blocks.text_started ≡ true → Simulated allow c (stop_text_block b)
    unfolding stop_text_block
    stop_text on =
        one_event _ _ c _ (step_stop allow b.blocks.text_index Kind.text c (s.text on))
          (InStep-stop_text b.blocks c s on)

    pub thinking_delta :
        (t : Text) → b.blocks.thinking_started ≡ true → Simulated allow c (emit_thinking_delta t b)
    unfolding emit_thinking_delta allows
    thinking_delta t on =
        one_event _ _ c _
          (step_delta allow b.blocks.thinking_index (Delta.thinking_delta t) Kind.thinking c
            (s.thinking on) refl)
          s

    pub text_delta :
        (t : Text) → b.blocks.text_started ≡ true → Simulated allow c (emit_text_delta t b)
    unfolding emit_text_delta allows
    text_delta t on =
        one_event _ _ c _
          (step_delta allow b.blocks.text_index (Delta.text_delta t) Kind.text c (s.text on) refl) s

    pub start_tool :
        (i : ℕ) (id name : Text)
        → is_started b.blocks.tool_states i ≡ false
        → Simulated allow c (start_tool_block i id name b)
    unfolding start_tool_block storage_kind
    start_tool i id name off =
        one_event _ _ c _
          (step_start allow b.blocks c s (ContentBlock.tool_use id name) Kind.tool_use refl)
          (InStep-start_tool b.blocks c s i id name off)

    -- A block that is started, filled and stopped at once.
    abbrev pub whole_result : ContentBlock → Delta → List Event × Builder
    whole_result block d = (
      content_block_start (pos b.blocks.next_index) block
          ∷ content_block_delta (pos b.blocks.next_index) d
          ∷ content_block_stop (pos b.blocks.next_index)
          ∷ [],
      record b { blocks = record b.blocks { next_index = b.blocks.next_index + 1 } },
    )

    pub whole_block :
        (block : ContentBlock) (d : Delta) (k : Kind)
        → storage_kind block ≡ some k
        → allows k d ≡ true
        → (r : Simulated allow c (whole_result block d)) × (is_nil r.after.seen_blocks ≡ false)
    unfolding steps kind_at is_nil
    whole_block block d k stored fits =
        let n = b.blocks.next_index in
        let c1 = with_open n k c in
        let at : kind_at c1.open_blocks (pos n) ≡ some k =
          ground (arith, eqℤ_iff (pos n) (pos n)) in
        (
          record {
            after = without (pos n) c1;
            passes = rw (step_start allow b.blocks c s block k stored) (
                rw (step_delta allow (pos n) d k c1 at fits)
                  (rw (step_stop allow (pos n) k c1 at) refl));
            in_step = InStep-whole b.blocks c s k;
          },
          refl,
        )
