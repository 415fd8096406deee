-- ===== src/Sse/Composed.antt =====
-- Each call of the transport emits events that pass the checker, and keeps the two in step.
use mathlib.Core.Path.{subst}
use mathlib.Core.Option.{some-injective}
use claude_chakra.Prelude.{
  ℕ, ◌≡◌, refl, ◌∙◌, inl, inr, Bool, true, false, some, List, [], ◌∷◌, ◌++◌, arith, Bool-cases,
  ◌==◌, Text, not, All,
}
use claude_chakra.Prelude.Int.{ℤ}
use claude_chakra.Sse.Event.{ContentBlock, Delta, Event, content_block_delta}
use claude_chakra.Sse.Blocks.{get_tool, modify, ToolStates, ToolCallState}
use claude_chakra.Sse.Builder.{
  Builder, start_thinking_block, start_text_block, stop_thinking_block, stop_text_block,
  emit_thinking_delta, emit_text_delta, emit_tool_delta, ensure_thinking_block, ensure_text_block,
  close_content_blocks, stop_open_text, stop_open_thinking, start_missing_text,
  start_missing_thinking,
}
use claude_chakra.Sse.Contract.{Kind, storage_kind, allows, Check, kind_at}
use claude_chakra.Sse.Calls.{
  is_started, speak, reason, emit_whole_tool, tool_block, Call, perform, reasoning, say,
  close_content, tool_id, tool_name, tool_start, tool_args, whole_tool,
}
use claude_chakra.Sse.Simulation.{InStep, ToolOpen, step_delta}
use claude_chakra.Sse.Tools.{InStep-set_stream_tool_id, InStep-register_tool_name, InStep-contents}
use claude_chakra.Sse.Emission.{
  Simulated, silent, one_event, Simulated-then, Simulated-when, start_thinking, start_text,
  stop_thinking, stop_text, thinking_delta, text_delta, start_tool, whole_block,
}

ensure_thinking_block-started :
    (b : Builder) → (ensure_thinking_block b).1.blocks.thinking_started ≡ true
unfolding ensure_thinking_block
ensure_thinking_block-started b = ground arith

pub ensure_text_block-started : (b : Builder) → (ensure_text_block b).1.blocks.text_started ≡ true
unfolding ensure_text_block
ensure_text_block-started b = ground arith

pub close_content_blocks-closed :
    (b : Builder)
    → ((close_content_blocks b).1.blocks.thinking_started ≡ false)
      × ((close_content_blocks b).1.blocks.text_started ≡ false)
unfolding close_content_blocks
close_content_blocks-closed b = ground arith

module _ (allow : Bool) (b : Builder) (c : Check) (s : InStep b.blocks c) where
  open_text_stopped : Simulated allow c (stop_open_text b)
  open_text_stopped =
      Simulated-when allow (λ x. x.blocks.text_started) stop_text_block b c s
        (stop_text allow b c s)

  open_thinking_stopped : Simulated allow c (stop_open_thinking b)
  open_thinking_stopped =
      Simulated-when allow (λ x. x.blocks.thinking_started) stop_thinking_block b c s
        (stop_thinking allow b c s)

  missing_text_started : Simulated allow c (start_missing_text b)
  missing_text_started =
      Simulated-when allow (λ x. not x.blocks.text_started) start_text_block b c s
        λ h. start_text allow b c s (ground arith)

  missing_thinking_started : Simulated allow c (start_missing_thinking b)
  missing_thinking_started =
      Simulated-when allow (λ x. not x.blocks.thinking_started) start_thinking_block b c s
        λ h. start_thinking allow b c s (ground arith)

module _ (allow : Bool) (b : Builder) (c : Check) (s : InStep b.blocks c) where
  ensure_thinking : Simulated allow c (ensure_thinking_block b)
  unfolding ensure_thinking_block
  ensure_thinking =
      Simulated-then allow stop_open_text start_missing_thinking b c (open_text_stopped allow b c s)
        λ c' s'. missing_thinking_started allow (stop_open_text b).1 c' s'

  ensure_text : Simulated allow c (ensure_text_block b)
  unfolding ensure_text_block
  ensure_text =
      Simulated-then allow stop_open_thinking start_missing_text b c
        (open_thinking_stopped allow b c s)
        λ c' s'. missing_text_started allow (stop_open_thinking b).1 c' s'

  pub close_content-Simulated : Simulated allow c (close_content_blocks b)
  unfolding close_content_blocks
  close_content-Simulated =
      Simulated-then allow stop_open_thinking stop_open_text b c (open_thinking_stopped allow b c s)
        λ c' s'. open_text_stopped allow (stop_open_thinking b).1 c' s'

  pub speak-Simulated : (t : Text) → Simulated allow c (speak t b)
  unfolding speak
  speak-Simulated t =
      Simulated-then allow ensure_text_block (emit_text_delta t) b c ensure_text
        λ c' s'. text_delta allow (ensure_text_block b).1 c' s' t (ensure_text_block-started b)

  reason-Simulated : (t : Text) → Simulated allow c (reason t b)
  unfolding reason
  reason-Simulated t =
      Simulated-then allow ensure_thinking_block (emit_thinking_delta t) b c ensure_thinking
        λ c' s'.
          thinking_delta allow (ensure_thinking_block b).1 c' s' t (ensure_thinking_block-started b)

  whole_tool-Simulated :
      (id name input : Text) → Simulated allow c (emit_whole_tool id name input b)
  unfolding emit_whole_tool storage_kind allows
  whole_tool-Simulated id name input =
      Simulated-then allow close_content_blocks (tool_block id name input) b c
        close_content-Simulated
        λ c' s'.
          (whole_block allow (close_content_blocks b).1 c' s' (ContentBlock.tool_use id name)
            (Delta.input_json_delta input) Kind.tool_use refl refl).0

-- A tool that is started is found, and its block is open.
started_tool :
    (opened : List (ℤ × Kind)) (ts : ToolStates) (i : ℕ)
    → All (ToolOpen opened) ts
    → is_started ts i ≡ true
    → (t : ToolCallState) × (get_tool ts i ≡ some t)
      × (kind_at opened t.block_index ≡ some Kind.tool_use)
unfolding is_started get_tool
started_tool opened [] i h on = cc
started_tool opened ((j, t) ∷ ts) i h on = elim (Bool-cases (j == i)) [
  | inl here ↦ (t, rw here refl, h.0 (ground arith))
  | inr there ↦ rw there (started_tool opened ts i h.1 (ground arith))
]

-- The events and the builder of an argument delta, for the tool that is found.
args_result :
    (i : ℕ) (json : Text) (b : Builder) (t : ToolCallState)
    → get_tool b.blocks.tool_states i ≡ some t
    → some (
      content_block_delta t.block_index (Delta.input_json_delta json) ∷ [],
      record b {
        blocks = record b.blocks {
          tool_states =
              modify i (λ u. record u { contents = u.contents ++ json ∷ [] }) b.blocks.tool_states;
        };
      },
    )
      ≡ emit_tool_delta i json b
unfolding emit_tool_delta
args_result i json b t there = rw there refl

-- A call whose guard holds passes the checker.
pub perform-Simulated :
    (allow : Bool) (call : Call) (b : Builder) (c : Check) (r : List Event × Builder)
    → InStep b.blocks c
    → perform call b ≡ some r
    → Simulated allow c r
unfolding perform
perform-Simulated allow (reasoning t) b c r s h =
    subst (Simulated allow c) (some-injective _ _ h) (reason-Simulated allow b c s t)
perform-Simulated allow (say t) b c r s h =
    subst (Simulated allow c) (some-injective _ _ h) (speak-Simulated allow b c s t)
perform-Simulated allow close_content b c r s h =
    subst (Simulated allow c) (some-injective _ _ h) (close_content-Simulated allow b c s)
perform-Simulated allow (tool_id i id) b c r s h =
    subst (Simulated allow c) (some-injective _ _ h)
      (silent allow _ c (InStep-set_stream_tool_id b.blocks c s i id))
perform-Simulated allow (tool_name i name) b c r s h =
    subst (Simulated allow c) (some-injective _ _ h)
      (silent allow _ c (InStep-register_tool_name b.blocks c s i name))
perform-Simulated allow (tool_start i id name) b c r s h =
    elim (Bool-cases (is_started b.blocks.tool_states i)) [
      | inl on ↦ absurd (ground arith)
      | inr off ↦
          subst (Simulated allow c) (some-injective _ _ (ground arith))
            (start_tool allow b c s i id name off)
    ]
perform-Simulated allow (tool_args i json) b c r s h =
    elim (Bool-cases (is_started b.blocks.tool_states i)) [
      | inl on ↦
          let (t, there, at) = started_tool c.open_blocks b.blocks.tool_states i s.tools on in
          subst (Simulated allow c)
            (some-injective _ _ (args_result i json b t there ∙ ground arith))
            (one_event allow _ _ c c
              (step_delta allow t.block_index (Delta.input_json_delta json) Kind.tool_use c at
                (unfold allows in refl))
              (InStep-contents b.blocks c s i json))
      | inr off ↦ absurd (ground arith)
    ]
perform-Simulated allow (whole_tool id name input) b c r s h =
    subst (Simulated allow c) (some-injective _ _ h)
      (whole_tool-Simulated allow b c s id name input)
