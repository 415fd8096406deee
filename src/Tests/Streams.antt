-- ===== src/Tests/Streams.antt =====
-- A response with reasoning, text and a tool call.
use claude_chakra.Prelude.{is_empty, ◌≡◌, refl, true, false, some, none, List, [], ◌∷◌, codes}
use claude_chakra.Sse.Event.{Event}
use claude_chakra.Sse.Blocks.{register_tool_name, set_stream_tool_id}
use claude_chakra.Sse.Contract.{holds}
use claude_chakra.Sse.Builder.{new_builder, start_tool_block, emit_tool_delta}
use claude_chakra.Sse.Calls.{
  run, perform, is_started, Call, reasoning, say, close_content, tool_id, tool_name, tool_start,
  tool_args, Ending, completed, respond,
}
use claude_chakra.Sse.Conformance.{respond-holds}

abbrev calls : List Call
calls =
    reasoning (codes "hm")
    ∷ say (codes "I will look")
    ∷ close_content
    ∷ tool_id 0 (codes "toolu_1")
    ∷ tool_name 0 (codes "Read")
    ∷ tool_start 0 (codes "toolu_1") (codes "Read")
    ∷ tool_args 0 (codes "{}")
    ∷ []

abbrev tools_done : Ending
tools_done = completed (some (codes "tool_calls")) 5

abbrev stream : List Event
stream = elim (respond calls tools_done (new_builder (codes "msg_1") (codes "m") 9)) [
  | none ↦ []
  | some es ↦ es
]

respond-holds_example : holds false stream ≡ true
unfolding respond run perform is_started register_tool_name set_stream_tool_id is_empty
    start_tool_block emit_tool_delta
respond-holds_example =
    respond-holds false calls tools_done (codes "msg_1") (codes "m") 9 stream refl refl
