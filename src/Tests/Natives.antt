-- ===== src/Tests/Natives.antt =====
-- A thinking block that is interrupted by a text block and goes on.
use claude_chakra.Prelude.{
  ◌≡◌, refl, true, none, some, List, [], ◌∷◌, All, Text, codes, any, filter, text_eq,
}
use claude_chakra.Prelude.Int.{pos}
use claude_chakra.Native.{
  NativeBlock, NativeDelta, NativeEvent, content_block_start, content_block_delta,
  content_block_stop, new_policy, has_index, leave_out,
}
use claude_chakra.Native.Transform.{delta_type_to_block_kind, transform_all}
use claude_chakra.Native.Client.{Client, new_client, watch, watch_all}
use claude_chakra.Native.Order.{HasKnownTypes, transform_all-watch}

abbrev block : Text → NativeBlock
block kind = record { kind = some kind; id = none; name = none; input = none; others = [] }

abbrev delta : Text → NativeDelta
delta kind = record { kind = some kind; others = [] }

abbrev interrupted : List NativeEvent
interrupted =
    content_block_start (some (pos 0)) (some (block (codes "thinking")))
    ∷ content_block_start (some (pos 1)) (some (block (codes "text")))
    ∷ content_block_delta (some (pos 0)) (some (delta (codes "thinking_delta")))
    ∷ content_block_delta (some (pos 1)) (some (delta (codes "text_delta")))
    ∷ content_block_stop (some (pos 0))
    ∷ content_block_stop (some (pos 1))
    ∷ []

interrupted-HasKnownTypes : All HasKnownTypes interrupted
unfolding HasKnownTypes delta_type_to_block_kind text_eq
interrupted-HasKnownTypes = (
  (codes "thinking", refl),
  ((codes "text", refl), ((codes "thinking", refl), ((codes "text", refl), (tt, (tt, tt))))),
)

transform_all-watch_example :
    (down : Client) × (watch_all (transform_all true interrupted new_policy).0 new_client
      ≡ some down)
unfolding watch_all watch has_index leave_out any filter
transform_all-watch_example =
    transform_all-watch true interrupted
      (record { open_blocks = []; seen_blocks = pos 1 ∷ pos 0 ∷ [] }) interrupted-HasKnownTypes refl
