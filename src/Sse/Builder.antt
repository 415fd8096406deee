-- ===== src/Sse/Builder.antt =====
-- core/anthropic/sse.py: `SSEBuilder`.
--
-- A method is a function from the builder to the events that it yields and the new builder. Token
-- estimates with the encoder, the buffers of Task arguments and the raw-event log are left out.
use mathlib.Core.Option
use claude_chakra.Prelude.{
  ℕ, ◌+◌, ◌/◌, ◌*◌, Bool, true, false, not, Option, none, some, List, [], ◌∷◌, ◌++◌, if◌then◌else◌,
  length, count, Text, codes, text_eq,
}
use mathlib.Core.List.{flatten}
use claude_chakra.Sse.Blocks.{
  Blocks, ToolStates, allocate_index, get_tool, modify, new_blocks, start_tool,
}
use claude_chakra.Sse.Event.{
  ContentBlock, Delta, Event, message_start, message_delta, message_stop, content_block_start,
  content_block_delta, content_block_stop, error,
}

-- map_stop_reason: a reason that is missing, empty or not in the table is "end_turn".
unfoldable pub map_stop_reason : Option Text → Text
map_stop_reason none = codes "end_turn"
map_stop_reason (some reason) =
    if text_eq reason (codes "length")
    then codes "max_tokens"
    else if text_eq reason (codes "tool_calls")
    then codes "tool_use"
    else codes "end_turn"

pub record Builder : Type 0 where
  pub message_id : Text
  pub model : Text
  pub input_tokens : ℕ
  pub blocks : Blocks
  pub text_parts : List Text
  pub reasoning_parts : List Text

abbrev pub new_builder : Text → Text → ℕ → Builder
new_builder message_id model input_tokens = record {
  message_id = message_id;
  model = model;
  input_tokens = input_tokens;
  blocks = new_blocks;
  text_parts = [];
  reasoning_parts = [];
}

-- What a generator method yields, beside the builder that it leaves.
abbrev pub Emits : Type 0
Emits = Builder → List Event × Builder

-- `yield from a` and then `yield from b`.
infixl 20 ◌then_yield◌
abbrev pub ◌then_yield◌ : Emits → Emits → Emits
◌then_yield◌ m k b = let (es, b') = m b in let (es', b'') = k b' in (es ++ es', b'')

abbrev pub when : (Builder → Bool) → Emits → Emits
when test m b = if test b then m b else ([], b)

abbrev pub emit : Event → Emits
emit e b = (e ∷ [], b)

unfoldable pub start_message : Emits
start_message b = (message_start b.message_id b.model b.input_tokens ∷ [], b)

unfoldable pub finish_message : Text → ℕ → Emits
finish_message reason output b = (message_delta reason b.input_tokens output ∷ message_stop ∷ [], b)

unfoldable pub start_thinking_block : Emits
start_thinking_block b =
    let (i, bs) = allocate_index b.blocks in
    (
      content_block_start i (ContentBlock.thinking []) ∷ [],
      record b { blocks = record bs { thinking_index = i; thinking_started = true } },
    )

unfoldable pub emit_thinking_delta : Text → Emits
emit_thinking_delta content b = (
  content_block_delta b.blocks.thinking_index (Delta.thinking_delta content) ∷ [],
  record b { reasoning_parts = b.reasoning_parts ++ content ∷ [] },
)

unfoldable pub stop_thinking_block : Emits
stop_thinking_block b = (
  content_block_stop b.blocks.thinking_index ∷ [],
  record b { blocks = record b.blocks { thinking_started = false } },
)

unfoldable pub start_text_block : Emits
start_text_block b =
    let (i, bs) = allocate_index b.blocks in
    (
      content_block_start i (ContentBlock.text []) ∷ [],
      record b { blocks = record bs { text_index = i; text_started = true } },
    )

unfoldable pub emit_text_delta : Text → Emits
emit_text_delta content b = (
  content_block_delta b.blocks.text_index (Delta.text_delta content) ∷ [],
  record b { text_parts = b.text_parts ++ content ∷ [] },
)

unfoldable pub stop_text_block : Emits
stop_text_block b = (
  content_block_stop b.blocks.text_index ∷ [],
  record b { blocks = record b.blocks { text_started = false } },
)

unfoldable pub start_tool_block : ℕ → Text → Text → Emits
unfolding start_tool
start_tool_block i tool_id name b =
    let (block, bs) = allocate_index b.blocks in
    (
      content_block_start block (ContentBlock.tool_use tool_id name) ∷ [],
      record b {
        blocks = record bs { tool_states = start_tool i block tool_id name bs.tool_states };
      },
    )

-- A tool that is not in the dictionary is a KeyError: `none`.
unfoldable pub emit_tool_delta : ℕ → Text → Builder → Option (List Event × Builder)
unfolding get_tool modify
emit_tool_delta i json b =
    Option.map
      (λ t. (
        content_block_delta t.block_index (Delta.input_json_delta json) ∷ [],
        record b {
          blocks = record b.blocks {
            tool_states =
                modify i (λ s. record s { contents = s.contents ++ json ∷ [] })
                  b.blocks.tool_states;
          };
        },
      ))
      (get_tool b.blocks.tool_states i)

-- The conditional stops and starts of the methods below.
abbrev pub stop_open_text : Emits
stop_open_text = when (λ b. b.blocks.text_started) stop_text_block

abbrev pub stop_open_thinking : Emits
stop_open_thinking = when (λ b. b.blocks.thinking_started) stop_thinking_block

abbrev pub start_missing_text : Emits
start_missing_text = when (λ b. not b.blocks.text_started) start_text_block

abbrev pub start_missing_thinking : Emits
start_missing_thinking = when (λ b. not b.blocks.thinking_started) start_thinking_block

unfoldable pub ensure_thinking_block : Emits
unfolding stop_text_block start_thinking_block
ensure_thinking_block = stop_open_text then_yield start_missing_thinking

unfoldable pub ensure_text_block : Emits
unfolding stop_thinking_block start_text_block
ensure_text_block = stop_open_thinking then_yield start_missing_text

unfoldable pub close_content_blocks : Emits
unfolding stop_thinking_block stop_text_block
close_content_blocks = stop_open_thinking then_yield stop_open_text

-- The stops of the tool blocks in `close_all_blocks`. The states stay started.
unfoldable pub stop_tools : ToolStates → List Event
stop_tools [] = []
stop_tools ((i, t) ∷ rest) =
    let rest' = stop_tools rest in
    if t.started then content_block_stop t.block_index ∷ rest' else rest'

unfoldable pub close_all_blocks : Emits
unfolding close_content_blocks stop_tools
close_all_blocks = close_content_blocks then_yield λ b. (stop_tools b.blocks.tool_states, b)

unfoldable pub emit_error : Text → Emits
emit_error message b =
    let (i, bs) = allocate_index b.blocks in
    (
      content_block_start i (ContentBlock.text [])
          ∷ content_block_delta i (Delta.text_delta message)
          ∷ content_block_stop i
          ∷ [],
      record b { blocks = bs },
    )

unfoldable pub emit_top_level_error : Text → Emits
emit_top_level_error message = emit (error message)

-- `estimate_output_tokens` where no encoder could be loaded.
unfoldable pub estimate_output_tokens : Builder → ℕ
estimate_output_tokens b =
    length (flatten b.text_parts) / 4
    + length (flatten b.reasoning_parts) / 4
    + count (λ e. e.1.started) b.blocks.tool_states * 50
