-- ===== src/Trees/Removal.antt =====
-- messaging/trees/data.py: `remove_branch`. A node object stands in the dictionary under its id, so the
-- change of the parent's children is a change there. `none` is a KeyError, or fuel used up.
use mathlib.Core.Option
use claude_chakra.Prelude.{
  ℕ, Option, none, some, List, [], ◌∷◌, if◌then◌else◌, Text, get_key, has_key, delete_key,
}
use claude_chakra.Trees.Queue.{contains, discard}
use claude_chakra.Trees.Node.{MessageNode}
use claude_chakra.Trees.Tree.{MessageTree, update, get_parent}
use claude_chakra.Trees.Linked.{Nodes}
use claude_chakra.Trees.Branch.{get_descendants}

abbrev pub Removed : Type 0
Removed = List MessageNode × Nodes × List (Text × Text)

abbrev pub with_removed : MessageNode → Removed → Removed
with_removed n (removed, nodes, statuses) = (n ∷ removed, nodes, statuses)

-- One round, with the rest of the loop for an id that is gone already, and after the removal.
unfoldable pub remove_found :
    Option MessageNode
    → List (Text × Text)
    → Option Removed
    → (MessageNode → Option Removed)
    → Option Removed
unfolding has_key
remove_found none statuses skip go_on = skip
remove_found (some n) statuses skip go_on =
    let rest = go_on n in
    if has_key n.status_message_id statuses then Option.map (with_removed n) rest else none

-- The loop over the descendants.
unfoldable pub remove_all : List Text → Nodes → List (Text × Text) → Option Removed
unfolding get_key delete_key remove_found
remove_all [] nodes statuses = some ([], nodes, statuses)
remove_all (nid ∷ ids) nodes statuses =
    remove_found (get_key nid nodes) statuses (remove_all ids nodes statuses)
      λ n. remove_all ids (delete_key nid nodes) (delete_key n.status_message_id statuses)

abbrev pub without_child : Text → MessageNode → MessageNode
without_child c n = record n { children_ids = discard c n.children_ids }

unfoldable pub detach : Option MessageNode → Text → Nodes → Nodes
unfolding contains update
detach none id nodes = nodes
detach (some parent) id nodes =
    if contains id parent.children_ids
    then update parent.node_id (without_child id) nodes
    else nodes

abbrev pub after_removal : Text → MessageTree → Removed → List MessageNode × MessageTree
after_removal id t (removed, nodes, statuses) =
    (removed, record t { nodes = detach (get_parent id t) id nodes; status_to_node = statuses })

unfoldable pub remove_branch : ℕ → Text → MessageTree → Option (List MessageNode × MessageTree)
unfolding has_key get_descendants remove_all detach get_parent
remove_branch fuel id t =
    if has_key id t.nodes
    then Option.bind (get_descendants fuel id t.nodes)
        (λ ids. Option.map (after_removal id t) (remove_all ids t.nodes t.status_to_node))
    else some ([], t)
