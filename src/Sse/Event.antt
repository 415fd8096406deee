-- ===== src/Sse/Event.antt =====
-- The events of an Anthropic stream as data. On the wire an event is text whose payload
-- `json.dumps` wrote; here it is the payload. Indexes are integers, since -1 stands for none.
use claude_chakra.Prelude.{ℕ, Text, codes, ◌++◌}
use claude_chakra.Prelude.Int.{ℤ}

-- A `content_block`, by its `type`; `tool_use` has its id and its name, and an empty input.
pub data ContentBlock : Type 0 where
  text : Text → ContentBlock
  thinking : Text → ContentBlock
  tool_use : Text → Text → ContentBlock
  redacted_thinking : ContentBlock
  server_tool_use : ContentBlock
  web_search_tool_result : ContentBlock
  web_fetch_tool_result : ContentBlock
  unknown : Text → ContentBlock

pub data Delta : Type 0 where
  text_delta : Text → Delta
  thinking_delta : Text → Delta
  signature_delta : Text → Delta
  input_json_delta : Text → Delta
  unknown_delta : Text → Delta

-- `message_start` has the id, the model and the input tokens, `message_delta` the stop reason and
-- the token counts; `other` is an event of any other name.
pub data Event : Type 0 where
  message_start : Text → Text → ℕ → Event
  message_delta : Text → ℕ → ℕ → Event
  message_stop : Event
  content_block_start : ℤ → ContentBlock → Event
  content_block_delta : ℤ → Delta → Event
  content_block_stop : ℤ → Event
  error : Text → Event
  other : Text → Event

abbrev pub event_name : Event → Text
event_name (message_start i m t) = codes "message_start"
event_name (message_delta r i o) = codes "message_delta"
event_name message_stop = codes "message_stop"
event_name (content_block_start i b) = codes "content_block_start"
event_name (content_block_delta i d) = codes "content_block_delta"
event_name (content_block_stop i) = codes "content_block_stop"
event_name (error m) = codes "error"
event_name (other name) = name

-- `format_sse_event`, with the data as `json.dumps` wrote it.
abbrev pub format_sse_event : Text → Text → Text
format_sse_event name data_text =
    codes "event: " ++ (name ++ (codes "\ndata: " ++ (data_text ++ codes "\n\n")))
