-- ===== src/Native/Transform.antt =====
-- core/anthropic/native_sse_block_policy.py: `transform_native_sse_block_event`.
use claude_chakra.Prelude.{
  ℕ, zero, suc, ◌+◌, ◌/◌, ◌%◌, Bool, false, not, ◌&&◌, ◌||◌, Option, none, some, List, [], ◌∷◌,
  ◌++◌, if◌then◌else◌, is_some, Text, codes, text_eq, is_empty, starts_with, find, ltb,
}
use claude_chakra.Prelude.Int.{ℤ, pos, negsuc}
use claude_chakra.Native.{
  NativeBlock, NativeDelta, NativeEvent, content_block_start, content_block_delta,
  content_block_stop, UpstreamBlockState, NativeSseBlockPolicyState, get_at, set_at, has_index,
  leave_out, stop_of, synthetic_close_other_open_blocks, allocate_new_segment,
}

-- The decimal digits, by repeated division; there are fewer than `fuel`.
digits : ℕ → ℕ → Text → Text
digits zero n later = later
digits (suc fuel) n later =
    let rest = digits fuel (n / 10) ((48 + n % 10) ∷ later) in
    if ltb n 10 then (48 + n) ∷ later else rest

-- `str` of an int.
unfoldable pub str_of_int : ℤ → Text
unfolding digits
str_of_int (pos n) = digits (suc n) n []
str_of_int (negsuc n) = 45 ∷ digits (n + 2) (n + 1) []

-- `_delta_type_to_block_kind`.
unfoldable pub delta_type_to_block_kind : Option Text → Option Text
delta_type_to_block_kind none = none
delta_type_to_block_kind (some t) =
    if text_eq t (codes "thinking_delta") || text_eq t (codes "signature_delta")
    then some (codes "thinking")
    else if text_eq t (codes "text_delta")
    then some (codes "text")
    else if text_eq t (codes "input_json_delta")
    then some (codes "tool_use")
    else none

unfoldable pub text_or : Option Text → Text → Text
text_or none d = d
text_or (some t) d = t

-- A non-empty id, or the one made from the upstream index; `str_of_int` is the index as text.
unfoldable pub tool_use_id : Text → Option Text → Text
tool_use_id str_of_int none = codes "toolu_or_" ++ str_of_int
tool_use_id str_of_int (some t) = if is_empty t then codes "toolu_or_" ++ str_of_int else t

unfoldable pub tool_use_block : Text → Option NativeBlock → NativeBlock
unfolding text_or tool_use_id
tool_use_block str_of_int none = record {
  kind = some (codes "tool_use");
  id = some (tool_use_id str_of_int none);
  name = some [];
  input = some (codes "{}");
  others = [];
}
tool_use_block str_of_int (some b) = record {
  kind = some (codes "tool_use");
  id = some (tool_use_id str_of_int b.id);
  name = some (text_or b.name []);
  input = some (text_or b.input (codes "{}"));
  others = [];
}

plain_block : Text → Text → NativeBlock
plain_block kind others = record {
  kind = some kind;
  id = none;
  name = none;
  input = none;
  others = others;
}

-- `_synthetic_start_content_block`.
unfoldable pub synthetic_start_content_block : Text → Text → Option NativeBlock → NativeBlock
unfolding tool_use_block plain_block
synthetic_start_content_block block_kind str_of_int stored =
    if text_eq block_kind (codes "tool_use")
    then tool_use_block str_of_int stored
    else if text_eq block_kind (codes "thinking")
    then plain_block (codes "thinking") (codes "\"thinking\": \"\"")
    else plain_block (codes "text") (codes "\"text\": \"\"")

-- `_should_drop_block_type`.
unfoldable pub should_drop_block_type : Bool → Option Text → Bool
should_drop_block_type thinking_enabled none = false
should_drop_block_type thinking_enabled (some t) =
    if starts_with (codes "redacted_thinking") t
    then not thinking_enabled
    else not thinking_enabled && is_some (find (codes "thinking") t)

-- The block if it is a dict of the type "tool_use".
unfoldable pub stored_tool : Option NativeBlock → Option NativeBlock
stored_tool none = none
stored_tool (some b) = elim b.kind [
  | none ↦ none
  | some t ↦ if text_eq t (codes "tool_use") then some b else none
]

abbrev pub Transformed : Type 0
Transformed = Option (List NativeEvent) × NativeSseBlockPolicyState

-- A start event of a block that is not dropped.
unfoldable pub begin_block : ℤ → NativeBlock → Option Text → NativeSseBlockPolicyState → Transformed
unfolding synthetic_close_other_open_blocks allocate_new_segment
begin_block i block none s = (some (content_block_start (some i) (some block) ∷ []), s)
begin_block i block (some block_type) s =
    let (prefix, closed) = synthetic_close_other_open_blocks i s in
    let (new_idx, s') = allocate_new_segment i block_type (some block) closed in
    (some (prefix ++ content_block_start (some (pos new_idx)) (some block) ∷ []), s')

unfoldable pub transform_start : Bool → ℤ → NativeBlock → NativeSseBlockPolicyState → Transformed
unfolding should_drop_block_type begin_block
transform_start thinking_enabled i block s =
    if should_drop_block_type thinking_enabled block.kind
    then (none, record s { dropped_indexes = i ∷ s.dropped_indexes })
    else begin_block i block block.kind s

-- A new segment with a start of its own, and then the delta.
unfoldable pub open_with :
    ℤ
    → NativeDelta
    → Text
    → NativeBlock
    → Option NativeBlock
    → NativeSseBlockPolicyState
    → Transformed
unfolding allocate_new_segment
open_with i delta block_kind block last s =
    let (new_idx, s') = allocate_new_segment i block_kind last s in
    (
      some (
          content_block_start (some (pos new_idx)) (some block)
          ∷ content_block_delta (some (pos new_idx)) (some delta)
          ∷ []),
      s',
    )

-- A delta of a known kind, by what is stored for its upstream index.
unfoldable pub delta_for :
    ℤ → NativeDelta → Text → Option UpstreamBlockState → NativeSseBlockPolicyState → Transformed
unfolding open_with synthetic_start_content_block leave_out stored_tool
delta_for i delta block_kind (some seg) s =
    if seg.is_open
    then (some (content_block_delta (some (pos seg.down_index)) (some delta) ∷ []), s)
    else open_with i delta block_kind
        (synthetic_start_content_block block_kind (str_of_int i) (stored_tool seg.last_start_block))
        seg.last_start_block
        (record s { pending_suppressed_stops = leave_out i s.pending_suppressed_stops })
delta_for i delta block_kind none s =
    if text_eq block_kind (codes "text") || text_eq block_kind (codes "tool_use")
    then (let block = synthetic_start_content_block block_kind (str_of_int i) none in
        open_with i delta block_kind block (some block) s)
    else (some (content_block_delta (some i) (some delta) ∷ []), s)

unfoldable pub delta_of_kind :
    ℤ → NativeDelta → Option Text → NativeSseBlockPolicyState → Transformed
unfolding delta_for get_at
delta_of_kind i delta none s = (some (content_block_delta (some i) (some delta) ∷ []), s)
delta_of_kind i delta (some block_kind) s = delta_for i delta block_kind (get_at i s.by_upstream) s

unfoldable pub transform_delta : Bool → ℤ → NativeDelta → NativeSseBlockPolicyState → Transformed
unfolding has_index should_drop_block_type delta_of_kind delta_type_to_block_kind
transform_delta thinking_enabled i delta s =
    if has_index i s.dropped_indexes || should_drop_block_type thinking_enabled delta.kind
    then (none, s)
    else delta_of_kind i delta (delta_type_to_block_kind delta.kind) s

unfoldable pub stop_for :
    Bool → ℤ → Option UpstreamBlockState → NativeSseBlockPolicyState → Transformed
unfolding set_at
stop_for thinking_enabled i (some seg) s =
    if seg.is_open
    then (
      some (stop_of seg.down_index ∷ []),
      record s { by_upstream = set_at i (record seg { is_open = false }) s.by_upstream },
    )
    else (none, s)
stop_for thinking_enabled i none s =
    if thinking_enabled then (some (content_block_stop (some i) ∷ []), s) else (none, s)

unfoldable pub transform_stop : Bool → ℤ → NativeSseBlockPolicyState → Transformed
unfolding has_index leave_out stop_for get_at
transform_stop thinking_enabled i s =
    if has_index i s.dropped_indexes
    then (none, s)
    else if has_index i s.pending_suppressed_stops
    then (none, record s { pending_suppressed_stops = leave_out i s.pending_suppressed_stops })
    else stop_for thinking_enabled i (get_at i s.by_upstream) s

-- `none` when the event is left out.
unfoldable pub transform_native_sse_block_event :
    Bool → NativeEvent → NativeSseBlockPolicyState → Transformed
unfolding transform_start transform_delta transform_stop
transform_native_sse_block_event thinking_enabled (content_block_start (some i) (some block)) s =
    transform_start thinking_enabled i block s
transform_native_sse_block_event thinking_enabled (content_block_delta (some i) (some delta)) s =
    transform_delta thinking_enabled i delta s
transform_native_sse_block_event thinking_enabled (content_block_stop (some i)) s =
    transform_stop thinking_enabled i s
transform_native_sse_block_event thinking_enabled e s = (some (e ∷ []), s)

unfoldable pub sent_of : Option (List NativeEvent) → List NativeEvent
sent_of none = []
sent_of (some es) = es

-- What a client gets of a stream, as the line-mode transports send it.
unfoldable pub transform_all :
    Bool
    → List NativeEvent
    → NativeSseBlockPolicyState
    → List NativeEvent × NativeSseBlockPolicyState
unfolding transform_native_sse_block_event sent_of
transform_all thinking_enabled [] s = ([], s)
transform_all thinking_enabled (e ∷ es) s =
    let (out, s') = transform_native_sse_block_event thinking_enabled e s in
    let (rest, s'') = transform_all thinking_enabled es s' in (sent_of out ++ rest, s'')
