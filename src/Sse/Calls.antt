-- ===== src/Sse/Calls.antt =====
-- The calls on `SSEBuilder` that providers/openai_compat.py makes while it streams, each with the
-- guard under which it makes it.
use mathlib.Core.List.{flatten}
use mathlib.Core.Option
use claude_chakra.Prelude.Int.{negsuc, eqℤ}
use claude_chakra.Prelude.{
  not, ◌&&◌, any, is_empty, strip, codes, ℕ, Bool, false, ◌||◌, Option, none, some, List, [], ◌∷◌,
  ◌++◌, if◌then◌else◌, Text,
}
use claude_chakra.Sse.Event.{
  ContentBlock, Delta, Event, content_block_start, content_block_delta, content_block_stop,
}
use claude_chakra.Sse.Blocks.{
  ToolStates, Blocks, has_emitted_tool_block, get_tool, allocate_index, set_stream_tool_id,
  register_tool_name,
}
use claude_chakra.Sse.Builder.{
  when, map_stop_reason, emit_top_level_error, Builder, Emits, ◌then_yield◌, emit_thinking_delta,
  emit_text_delta, start_tool_block, emit_tool_delta, ensure_thinking_block, ensure_text_block,
  close_content_blocks, close_all_blocks, emit_error, start_message, finish_message,
}

pub data Call : Type 0 where
  reasoning : Text → Call
  say : Text → Call
  close_content : Call
  tool_id : ℕ → Text → Call
  tool_name : ℕ → Text → Call
  tool_start : ℕ → Text → Text → Call
  tool_args : ℕ → Text → Call
  whole_tool : Text → Text → Text → Call

unfoldable pub is_started : ToolStates → ℕ → Bool
unfolding get_tool
is_started ts i = elim (get_tool ts i) [ none ↦ false | some t ↦ t.started ]

abbrev pub tool_block : Text → Text → Text → Emits
tool_block id name input b =
    let (i, bs) = allocate_index b.blocks in
    (
      content_block_start i (ContentBlock.tool_use id name)
          ∷ content_block_delta i (Delta.input_json_delta input)
          ∷ content_block_stop i
          ∷ [],
      record b { blocks = bs },
    )

-- `_iter_heuristic_tool_use_sse`, with the input as it is dumped.
unfoldable pub emit_whole_tool : Text → Text → Text → Emits
unfolding close_content_blocks
emit_whole_tool id name input = close_content_blocks then_yield tool_block id name input

unfoldable pub speak : Text → Emits
unfolding ensure_text_block emit_text_delta
speak content = ensure_text_block then_yield emit_text_delta content

unfoldable pub reason : Text → Emits
unfolding ensure_thinking_block emit_thinking_delta
reason content = ensure_thinking_block then_yield emit_thinking_delta content

-- `_process_tool_call` starts a tool block once; `none` where it does not.
abbrev pub start_once : ℕ → Text → Text → Builder → Option (List Event × Builder)
start_once i id name b =
    if is_started b.blocks.tool_states i then none else some (start_tool_block i id name b)

-- `_process_tool_call` passes arguments on to the block that is started; `none` where there is none.
abbrev pub pass_arguments : ℕ → Text → Builder → Option (List Event × Builder)
pass_arguments i json b =
    if is_started b.blocks.tool_states i then emit_tool_delta i json b else none

-- `none` where the transport does not make the call.
unfoldable pub perform : Call → Builder → Option (List Event × Builder)
unfolding speak reason emit_whole_tool
perform (reasoning content) b = some (reason content b)
perform (say content) b = some (speak content b)
perform close_content b = some (close_content_blocks b)
perform (tool_id i id) b = some ([], record b { blocks = set_stream_tool_id i id b.blocks })
perform (tool_name i name) b = some ([], record b { blocks = register_tool_name i name b.blocks })
perform (tool_start i id name) b = start_once i id name b
perform (tool_args i json) b = pass_arguments i json b
perform (whole_tool id name input) b = some (emit_whole_tool id name input b)

unfoldable pub after :
    Option (List Event × Builder)
    → (Builder → Option (List Event × Builder))
    → Option (List Event × Builder)
after none next = none
after (some (es, b)) next = elim (next b) [ none ↦ none | some (es', b') ↦ some (es ++ es', b') ]

unfoldable pub run : List Call → Builder → Option (List Event × Builder)
unfolding after
run [] b = some ([], b)
run (call ∷ calls) b = after (perform call b) (run calls)

-- `has_content_blocks`: whether a text, a thinking or a native tool block was ever started. The
-- blocks of `emit_whole_tool` do not count.
unfoldable pub has_content_blocks : Blocks → Bool
has_content_blocks b =
    not (eqℤ b.text_index (negsuc 0))
    || not (eqℤ b.thinking_index (negsuc 0))
    || any (λ e. e.1.started) b.tool_states

unfoldable pub is_blank : List Text → Bool
is_blank parts = is_empty (strip (flatten parts))

-- The text that makes a response complete: a blank one when there is no block, or only reasoning.
unfoldable pub needs_blank : Builder → Bool
unfolding has_content_blocks is_blank
needs_blank b =
    not (has_content_blocks b.blocks)
    || (not (any (λ e. e.1.started) b.blocks.tool_states)
        && is_blank b.text_parts
        && not (is_blank b.reasoning_parts))

-- How a response ends: with the upstream's stop reason and the output tokens, or with an error.
pub data Ending : Type 0 where
  completed : Option Text → ℕ → Ending
  failed : Text → Ending

unfoldable pub report_error : Text → Emits
unfolding has_emitted_tool_block emit_top_level_error emit_error
report_error message b =
    if has_emitted_tool_block b.blocks then emit_top_level_error message b else emit_error message b

unfoldable pub ending : Ending → Emits
unfolding needs_blank speak report_error close_all_blocks finish_message map_stop_reason
ending (completed reason output) =
    when needs_blank (speak (codes " "))
    then_yield close_all_blocks
    then_yield finish_message (map_stop_reason reason) output
ending (failed message) =
    close_all_blocks then_yield report_error message then_yield finish_message (codes "end_turn") 1

unfoldable pub conclude : Ending → List Event × Builder → List Event
conclude e (es, b) = es ++ (ending e b).0

-- The whole stream of a response: the start, the calls and the end. `none` where a call's guard fails.
unfoldable pub respond : List Call → Ending → Builder → Option (List Event)
unfolding start_message conclude
respond calls e b = Option.map (λ r. (start_message b).0 ++ conclude e r) (run calls b)
