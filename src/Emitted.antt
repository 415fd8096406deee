-- ===== src/Emitted.antt =====
-- core/anthropic/emitted_sse_tracker.py: what is remembered of a native stream that was sent, so that
-- an error in the middle of it can be reported within the stream.
--
-- `feed` is on the events that were parsed out of the text. The stack has its top first.
pub mod Stack
pub mod Observed
pub mod Tail
use claude_chakra.Prelude.{
  ℕ, ◌+◌, max, Bool, true, false, Option, none, some, List, [], ◌∷◌, ◌++◌, map, if◌then◌else◌, Text,
  codes, is_empty,
}
use claude_chakra.Prelude.Int.{ℤ, pos, negsuc, eqℤ}
use claude_chakra.Native.{has_index}
use claude_chakra.Sse.Event.{
  Event, message_start, content_block_start, content_block_stop, message_delta, message_stop,
}
use claude_chakra.Sse.Builder.{Builder, new_builder, emit_error}

-- `next_content_index` is one more than `_max_index`, which starts at -1 and only grows.
pub record Tracker : Type 0 where
  pub open_stack : List ℤ
  pub next_content_index : ℕ
  pub message_id : Option Text
  pub model : Text

abbrev pub new_tracker : Tracker
new_tracker = record { open_stack = []; next_content_index = 0; message_id = none; model = [] }

-- `list.remove`: the occurrence that is nearest to the bottom.
unfoldable pub remove : ℤ → List ℤ → List ℤ
unfolding has_index
remove i [] = []
remove i (x ∷ xs) =
    let rest = remove i xs in if has_index i xs then x ∷ rest else if eqℤ x i then xs else x ∷ xs

-- A stop takes its block from the top, or from wherever it is.
unfoldable pub stopped : ℤ → List ℤ → List ℤ
unfolding remove
stopped i [] = []
stopped i (x ∷ xs) = if eqℤ x i then xs else remove i (x ∷ xs)

-- max(_max_index, idx) + 1.
abbrev pub next_after : ℕ → ℤ → ℕ
next_after n (pos i) = max n (i + 1)
next_after n (negsuc i) = n

-- `_observe`.
unfoldable pub observe : Event → Tracker → Tracker
unfolding stopped
observe (message_start mid model tokens) t = record t {
  message_id = if is_empty mid then t.message_id else some mid;
  model = if is_empty model then t.model else model;
}
observe (content_block_start i block) t = record t {
  open_stack = i ∷ t.open_stack;
  next_content_index = next_after t.next_content_index i;
}
observe (content_block_stop i) t = record t { open_stack = stopped i t.open_stack }
observe _ t = t

unfoldable pub feed : List Event → Tracker → Tracker
unfolding observe
feed [] t = t
feed (e ∷ es) t = feed es (observe e t)

abbrev pub iter_close_unclosed_blocks : Tracker → List Event
iter_close_unclosed_blocks t = map content_block_stop t.open_stack

message_id_or : Text → Option Text → Text
message_id_or fresh none = fresh
message_id_or fresh (some mid) = mid

-- `fresh` is the id made of a new uuid, `request_model` the model of the request.
unfoldable pub iter_midstream_error_tail : Text → Text → ℕ → Text → Tracker → List Event
unfolding message_id_or emit_error
iter_midstream_error_tail fresh request_model input_tokens message t =
    let model = if is_empty t.model then request_model else t.model in
    let b = new_builder (message_id_or fresh t.message_id) model input_tokens in
    let b' = record b { blocks = record b.blocks { next_index = t.next_content_index } } in
    (emit_error message b').0 ++ message_delta (codes "end_turn") input_tokens 1 ∷ message_stop ∷ []
