-- ===== src/Native.antt =====
-- core/anthropic/native_sse_block_policy.py: the content blocks of a native Anthropic stream, with
-- their thinking filtered out and their indexes given anew.
--
-- An event is its payload, as `json.loads` reads it. A field that is not of the type that the code
-- tests for is `none`: an index that is no int, a type that is no str, a `content_block` or a `delta`
-- that is no dict. The fields that the code passes on without looking are one text. Events are values,
-- so the copies of blocks are left out.
pub mod Transform
pub mod Client
pub mod Segments
pub mod Closing
pub mod Tracking
pub mod Following
pub mod Moves
pub mod Order
use claude_chakra.Prelude.{
  ℕ, suc, ◌+◌, Bool, true, false, not, ◌&&◌, ◌||◌, Option, none, some, List, [], ◌∷◌, ◌++◌,
  if◌then◌else◌, filter, any, is_some, Text, codes, text_eq, is_empty, starts_with, find,
}
use claude_chakra.Prelude.Int.{ℤ, pos, eqℤ}

-- A `content_block`; `input` is the text of a dict.
pub record NativeBlock : Type 0 where
  pub kind : Option Text
  pub id : Option Text
  pub name : Option Text
  pub input : Option Text
  pub others : Text

pub record NativeDelta : Type 0 where
  pub kind : Option Text
  pub others : Text

-- `opaque` is an event with another name, or with no name, no data or data that is not JSON.
pub data NativeEvent : Type 0 where
  content_block_start : Option ℤ → Option NativeBlock → NativeEvent
  content_block_delta : Option ℤ → Option NativeDelta → NativeEvent
  content_block_stop : Option ℤ → NativeEvent
  opaque : Text → NativeEvent

-- `_UpstreamBlockState`.
pub record UpstreamBlockState : Type 0 where
  pub block_type : Text
  pub down_index : ℕ
  pub is_open : Bool
  pub last_start_block : Option NativeBlock

-- Dictionaries and sets with integer keys.
module _ {ℓ} {A : Type ℓ} where
  unfoldable pub get_at : ℤ → List (ℤ × A) → Option A
  get_at k [] = none
  get_at k ((j, a) ∷ d) = if eqℤ j k then some a else get_at k d

  unfoldable pub set_at : ℤ → A → List (ℤ × A) → List (ℤ × A)
  set_at k a [] = (k, a) ∷ []
  set_at k a ((j, b) ∷ d) = let d' = set_at k a d in if eqℤ j k then (k, a) ∷ d else (j, b) ∷ d'

unfoldable pub has_index : ℤ → List ℤ → Bool
has_index i = any (λ j. eqℤ j i)

unfoldable pub leave_out : ℤ → List ℤ → List ℤ
leave_out i = filter (λ j. not (eqℤ j i))

pub record NativeSseBlockPolicyState : Type 0 where
  pub next_index : ℕ
  pub by_upstream : List (ℤ × UpstreamBlockState)
  pub dropped_indexes : List ℤ
  pub pending_suppressed_stops : List ℤ

abbrev pub new_policy : NativeSseBlockPolicyState
new_policy = record {
  next_index = 0;
  by_upstream = [];
  dropped_indexes = [];
  pending_suppressed_stops = [];
}

abbrev pub stop_of : ℕ → NativeEvent
stop_of n = content_block_stop (some (pos n))

-- The loop of `_synthetic_close_other_open_blocks`: the stops, and the dictionary after it.
unfoldable pub close_others :
    ℤ → List (ℤ × UpstreamBlockState) → List NativeEvent × List (ℤ × UpstreamBlockState)
close_others current [] = ([], [])
close_others current ((u, seg) ∷ d) =
    let (out, d') = close_others current d in
    if eqℤ u current || not seg.is_open
    then (out, (u, seg) ∷ d')
    else (stop_of seg.down_index ∷ out, (u, record seg { is_open = false }) ∷ d')

-- The upstream indexes that it adds to `pending_suppressed_stops`.
unfoldable pub suppressed : ℤ → List (ℤ × UpstreamBlockState) → List ℤ
suppressed current [] = []
suppressed current ((u, seg) ∷ d) =
    let rest = suppressed current d in if eqℤ u current || not seg.is_open then rest else u ∷ rest

unfoldable pub synthetic_close_other_open_blocks :
    ℤ → NativeSseBlockPolicyState → List NativeEvent × NativeSseBlockPolicyState
unfolding close_others suppressed
synthetic_close_other_open_blocks current s =
    let (out, d) = close_others current s.by_upstream in
    (
      out,
      record s {
        by_upstream = d;
        pending_suppressed_stops = suppressed current s.by_upstream ++ s.pending_suppressed_stops;
      },
    )

abbrev pub new_segment : Text → ℕ → Option NativeBlock → UpstreamBlockState
new_segment block_type n last = record {
  block_type = block_type;
  down_index = n;
  is_open = true;
  last_start_block = last;
}

-- `_allocate_new_segment`.
unfoldable pub allocate_new_segment :
    ℤ → Text → Option NativeBlock → NativeSseBlockPolicyState → ℕ × NativeSseBlockPolicyState
unfolding set_at
allocate_new_segment upstream_index block_type last s = (
  s.next_index,
  record s {
    next_index = s.next_index + 1;
    by_upstream = set_at upstream_index (new_segment block_type s.next_index last) s.by_upstream;
  },
)
