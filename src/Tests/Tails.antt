-- ===== src/Tests/Tails.antt =====
-- A stream that breaks off in a text block.
use claude_chakra.Prelude.{◌≡◌, refl, true, false, List, [], ◌∷◌, ◌++◌, codes, any, is_empty, strip}
use claude_chakra.Prelude.Int.{pos}
use claude_chakra.Sse.Event.{
  ContentBlock, Delta, Event, message_start, content_block_start, content_block_delta,
  content_block_stop,
}
use claude_chakra.Sse.Contract.{
  Kind, kind_at, is_seen, close, storage_kind, allows, step, steps, holds, is_start,
}
use claude_chakra.Emitted.{new_tracker, feed, iter_close_unclosed_blocks, iter_midstream_error_tail}
use claude_chakra.Emitted.Tail.{error_tail-holds}

abbrev broken : List Event
broken =
    message_start (codes "msg_1") (codes "m") 4
    ∷ content_block_start (pos 0) (ContentBlock.thinking [])
    ∷ content_block_stop (pos 0)
    ∷ content_block_start (pos 1) (ContentBlock.text [])
    ∷ content_block_delta (pos 1) (Delta.text_delta (codes "so"))
    ∷ []

error_tail-holds_example :
    let t = feed broken new_tracker in
    holds false (
      broken
      ++ (iter_close_unclosed_blocks t
          ++ iter_midstream_error_tail (codes "msg_2") (codes "m") 4 (codes "broken off") t))
    ≡ true
unfolding any is_start steps step kind_at is_seen close storage_kind allows is_empty strip
error_tail-holds_example =
    error_tail-holds false broken
      (record { open_blocks = (pos 1, Kind.text) ∷ []; seen_blocks = pos 1 ∷ pos 0 ∷ [] })
      (codes "msg_2") (codes "m") 4 (codes "broken off") refl refl
