-- ===== src/Sse/Blocks.antt =====
-- core/anthropic/sse.py: `ToolCallState` and `ContentBlockManager`, the bookkeeping of block indexes.
use claude_chakra.Prelude.{
  ℕ, ◌+◌, Bool, true, false, Option, none, some, List, [], ◌∷◌, ◌++◌, ◌==◌, if◌then◌else◌, any,
  Text, is_empty, starts_with,
}
use claude_chakra.Prelude.Int.{ℤ, pos, negsuc}

pub record ToolCallState : Type 0 where
  pub block_index : ℤ
  pub tool_id : Text
  pub name : Text
  pub contents : List Text
  pub started : Bool

-- `dict[int, ToolCallState]`, in the order of insertion.
abbrev pub ToolStates : Type 0
ToolStates = List (ℕ × ToolCallState)

unfoldable pub get_tool : ToolStates → ℕ → Option ToolCallState
get_tool [] i = none
get_tool ((j, t) ∷ rest) i = if j == i then some t else get_tool rest i

-- A change of the state object that is stored under a key.
unfoldable pub modify : ℕ → (ToolCallState → ToolCallState) → ToolStates → ToolStates
modify i f [] = []
modify i f ((j, t) ∷ rest) =
    let rest' = modify i f rest in if j == i then (j, f t) ∷ rest else (j, t) ∷ rest'

pub record Blocks : Type 0 where
  pub next_index : ℕ
  pub thinking_index : ℤ
  pub text_index : ℤ
  pub thinking_started : Bool
  pub text_started : Bool
  pub tool_states : ToolStates

abbrev pub new_blocks : Blocks
new_blocks = record {
  next_index = 0;
  thinking_index = negsuc 0;
  text_index = negsuc 0;
  thinking_started = false;
  text_started = false;
  tool_states = [];
}

abbrev pub allocate_index : Blocks → ℤ × Blocks
allocate_index b = (pos b.next_index, record b { next_index = b.next_index + 1 })

abbrev pub new_tool : Text → ToolCallState
new_tool name = record {
  block_index = negsuc 0;
  tool_id = [];
  name = name;
  contents = [];
  started = false;
}

-- The dictionary after `ensure_tool_state`.
unfoldable pub ensure_tool : ℕ → Text → ToolStates → ToolStates
unfolding get_tool
ensure_tool i name ts = elim (get_tool ts i) [ some t ↦ ts | none ↦ ts ++ (i, new_tool name) ∷ [] ]

unfoldable pub set_stream_tool_id : ℕ → Text → Blocks → Blocks
unfolding ensure_tool modify
set_stream_tool_id i tool_id b = if is_empty tool_id then b else record b {
  tool_states = modify i (λ t. record t { tool_id = tool_id }) (ensure_tool i [] b.tool_states);
}

-- How a name that arrives in pieces is put together.
unfoldable pub merge_name : Text → Text → Text
merge_name prev name =
    if is_empty prev
    then name
    else if starts_with prev name
    then name
    else if starts_with name prev
    then prev
    else prev ++ name

unfoldable pub register_tool_name : ℕ → Text → Blocks → Blocks
unfolding ensure_tool modify merge_name get_tool
register_tool_name i name b = record b {
  tool_states = elim (get_tool b.tool_states i) [
    | none ↦ ensure_tool i name b.tool_states
    | some t ↦ modify i (λ s. record s { name = merge_name s.name name }) b.tool_states
  ];
}

-- The dictionary after `start_tool_block`.
unfoldable pub start_tool : ℕ → ℤ → Text → Text → ToolStates → ToolStates
unfolding get_tool modify
start_tool i block tool_id name ts = elim (get_tool ts i) [
  | some t ↦ modify i (λ s. record s { block_index = block; tool_id = tool_id; started = true }) ts
  | none ↦
      ts
      ++ (i, record (new_tool name) { block_index = block; tool_id = tool_id; started = true }) ∷ []
]

unfoldable pub has_emitted_tool_block : Blocks → Bool
has_emitted_tool_block b = any (λ e. e.1.started) b.tool_states
