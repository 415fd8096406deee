-- ===== src/Trees/Branch.antt =====
-- messaging/trees/data.py: `get_descendants`; messaging/trees/queue_manager.py:
-- `get_pending_children`. Both loop over a stack, whose top comes first here, on fuel.
use mathlib.Core.Option
use claude_chakra.Prelude.{
  ℕ, zero, suc, Bool, true, false, Option, none, some, List, [], ◌∷◌, ◌++◌, if◌then◌else◌, filter,
  Text, get_key, has_key,
}
use claude_chakra.Trees.Node.{MessageState, MessageNode}
use claude_chakra.Trees.Linked.{Nodes}

-- `stack.extend(items)`.
unfoldable pub pushed : List Text → List Text → List Text
pushed [] stack = stack
pushed (x ∷ xs) stack = pushed xs (x ∷ stack)

children_of : Option MessageNode → List Text
children_of none = []
children_of (some n) = n.children_ids

-- The children of a node, none for an id that is not in the tree.
unfoldable pub children_at : Nodes → Text → List Text
unfolding children_of get_key
children_at nodes id = children_of (get_key id nodes)

-- `none` when the fuel is used up.
unfoldable pub descend : Nodes → ℕ → List Text → Option (List Text)
unfolding pushed children_at
descend nodes fuel [] = some []
descend nodes zero (nid ∷ stack) = none
descend nodes (suc fuel) (nid ∷ stack) =
    Option.map (λ r. nid ∷ r) (descend nodes fuel (pushed (children_at nodes nid) stack))

unfoldable pub get_descendants : ℕ → Text → Nodes → Option (List Text)
unfolding descend has_key
get_descendants fuel node_id nodes =
    if has_key node_id nodes then descend nodes fuel (node_id ∷ []) else some []

abbrev pub is_pending : MessageNode → Bool
is_pending n = elim n.state [ MessageState.pending ↦ true | _ ↦ false ]

is_pending_at : Nodes → Text → Bool
unfolding get_key
is_pending_at nodes id = elim (get_key id nodes) [ none ↦ false | some n ↦ is_pending n ]

-- The children that are pending.
unfoldable pub pending_at : Nodes → Text → List Text
unfolding is_pending_at children_at filter
pending_at nodes id = filter (is_pending_at nodes) (children_at nodes id)

-- The loop of `get_pending_children`, with the nodes by the ids they are found under.
unfoldable pub collect_pending : Nodes → ℕ → List Text → Option (List Text)
unfolding pushed pending_at
collect_pending nodes fuel [] = some []
collect_pending nodes zero (current_id ∷ stack) = none
collect_pending nodes (suc fuel) (current_id ∷ stack) =
    let found = pending_at nodes current_id in
    Option.map (λ r. found ++ r) (collect_pending nodes fuel (pushed found stack))

abbrev pub get_pending_children : ℕ → Text → Nodes → Option (List Text)
get_pending_children fuel node_id nodes = collect_pending nodes fuel (node_id ∷ [])
