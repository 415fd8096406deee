-- ===== src/Sse/Contract.antt =====
-- core/anthropic/stream_contracts.py: `assert_anthropic_stream_contract`.
--
-- A failed assertion is `none`. Payloads are well-formed here: an event has its index, and a
-- `content_block` and a `delta` are dictionaries.
use claude_chakra.Prelude.{
  Bool, true, false, ◌&&◌, not, Option, none, some, List, [], ◌∷◌, if◌then◌else◌, any, is_nil,
  is_empty, strip,
}
use claude_chakra.Prelude.Int.{ℤ, eqℤ}
use claude_chakra.Sse.Event.{
  ContentBlock, Delta, Event, message_start, message_stop, content_block_start, content_block_delta,
  content_block_stop, error,
}

-- What `open_blocks` stores for a block: its type, or "text_eager" for text that came in the start.
pub data Kind : Type 0 where
  text text_eager thinking tool_use start_stop_only : Kind

-- `none` for a type that is not in _ALLOWED_BLOCK_START_TYPES. The types that take no delta are one
-- kind: the checker treats them alike.
unfoldable pub storage_kind : ContentBlock → Option Kind
storage_kind (ContentBlock.text t) =
    some (if is_empty (strip t) then Kind.text else Kind.text_eager)
storage_kind (ContentBlock.thinking t) = some Kind.thinking
storage_kind (ContentBlock.tool_use i n) = some Kind.tool_use
storage_kind (ContentBlock.unknown t) = none
storage_kind _ = some Kind.start_stop_only

-- The deltas that a kind of block takes.
unfoldable pub allows : Kind → Delta → Bool
allows Kind.text (Delta.text_delta t) = true
allows Kind.thinking (Delta.thinking_delta t) = true
allows Kind.thinking (Delta.signature_delta t) = true
allows Kind.tool_use (Delta.input_json_delta t) = true
allows _ _ = false

pub record Check : Type 0 where
  pub open_blocks : List (ℤ × Kind)
  pub seen_blocks : List ℤ

abbrev pub new_check : Check
new_check = record { open_blocks = []; seen_blocks = [] }

unfoldable pub kind_at : List (ℤ × Kind) → ℤ → Option Kind
kind_at [] i = none
kind_at ((j, k) ∷ rest) i = if eqℤ j i then some k else kind_at rest i

unfoldable pub close : ℤ → List (ℤ × Kind) → List (ℤ × Kind)
close i [] = []
close i ((j, k) ∷ rest) = let rest' = close i rest in if eqℤ j i then rest' else (j, k) ∷ rest'

unfoldable pub is_seen : ℤ → List ℤ → Bool
is_seen i = any (λ j. eqℤ j i)

open_block : ℤ → Option Kind → Check → Option Check
open_block i none c = none
open_block i (some k) c =
    some (record { open_blocks = (i, k) ∷ c.open_blocks; seen_blocks = i ∷ c.seen_blocks })

start_block : ℤ → ContentBlock → Option Kind → Check → Option Check
unfolding open_block
start_block i block (some k) c = none
start_block i block none c =
    if is_seen i c.seen_blocks then none else open_block i (storage_kind block) c

delta_at : Delta → Option Kind → Check → Option Check
delta_at d none c = none
delta_at d (some k) c = if allows k d then some c else none

stop_at : ℤ → Option Kind → Check → Option Check
stop_at i none c = none
stop_at i (some k) c = some (record c { open_blocks = close i c.open_blocks })

-- One round of the checker's loop.
unfoldable pub step : Bool → Event → Check → Option Check
unfolding start_block delta_at stop_at
step allow_error (error message) c = if allow_error then some c else none
step allow_error (content_block_start i block) c = start_block i block (kind_at c.open_blocks i) c
step allow_error (content_block_delta i d) c = delta_at d (kind_at c.open_blocks i) c
step allow_error (content_block_stop i) c = stop_at i (kind_at c.open_blocks i) c
step allow_error _ c = some c

-- `next` goes on where the round did not fail.
abbrev pub and_then : Option Check → (Check → Option Check) → Option Check
and_then none next = none
and_then (some c) next = next c

unfoldable pub steps : Bool → List Event → Check → Option Check
steps allow_error [] c = some c
steps allow_error (e ∷ es) c = and_then (step allow_error e c) (steps allow_error es)

unfoldable pub is_start : Event → Bool
is_start (message_start i m t) = true
is_start _ = false

unfoldable pub is_stop : Event → Bool
is_stop message_stop = true
is_stop _ = false

unfoldable pub ends_with_stop : List Event → Bool
unfolding is_stop
ends_with_stop [] = false
ends_with_stop (e ∷ []) = is_stop e
ends_with_stop (e ∷ f ∷ es) = ends_with_stop (f ∷ es)

unfoldable pub is_settled : Option Check → Bool
is_settled none = false
is_settled (some c) = is_nil c.open_blocks && not (is_nil c.seen_blocks)

-- Whether no assertion fails. `ends_with_stop` is false for the empty stream.
unfoldable pub holds : Bool → List Event → Bool
unfolding is_start is_settled step
holds allow_error events =
    any is_start events && ends_with_stop events && is_settled (steps allow_error events new_check)
