-- ===== src/Manager.antt =====
-- messaging/trees/queue_manager.py: `TreeRepository`, the index of all trees, and the operations of
-- `TreeQueueManager` that grow it. A tree stands with its tasks (Processor) under the id of its root.
-- `none` is a ValueError. `add_to_tree` takes two locks in turn; here it is one step.
pub mod Registered
pub mod Index
use mathlib.Core.Option
use claude_chakra.Prelude.{
  ℕ, Bool, true, false, Option, none, some, List, [], ◌∷◌, if◌then◌else◌, length, Text, is_empty,
  get_key, set_key, delete_key, has_key,
}
use claude_chakra.Trees.Node.{IncomingMessage, MessageNode, new_node}
use claude_chakra.Trees.Tree.{
  MessageTree, new_tree, add_node, find_node_by_status_message, get_queue_size,
}
use claude_chakra.Processor.{Runtime, enqueue_and_start}

pub record Repository : Type 0 where
  pub trees : List (Text × Runtime)
  pub node_to_tree : List (Text × Text)

abbrev pub new_repository : Repository
new_repository = record { trees = []; node_to_tree = [] }

abbrev pub get_tree : Text → Repository → Option Runtime
get_tree root_id s = get_key root_id s.trees

unfoldable pub tree_of_root : Option Text → Repository → Option Runtime
unfolding get_key
tree_of_root none s = none
tree_of_root (some root_id) s = if is_empty root_id then none else get_key root_id s.trees

unfoldable pub get_tree_for_node : Text → Repository → Option Runtime
unfolding tree_of_root get_key
get_tree_for_node node_id s = tree_of_root (get_key node_id s.node_to_tree) s

unfoldable pub get_node : Text → Repository → Option MessageNode
unfolding get_tree_for_node get_key
get_node node_id s = Option.bind (get_tree_for_node node_id s) (λ r. get_key node_id r.tree.nodes)

abbrev pub add_tree : Text → Runtime → Repository → Repository
add_tree root_id r s = record {
  trees = set_key root_id r s.trees;
  node_to_tree = set_key root_id root_id s.node_to_tree;
}

abbrev pub register_node : Text → Text → Repository → Repository
register_node node_id root_id s = record s { node_to_tree = set_key node_id root_id s.node_to_tree }

unfoldable pub resolve_in : Text → Option Runtime → Option Text
unfolding has_key find_node_by_status_message
resolve_in msg_id none = none
resolve_in msg_id (some r) =
    if has_key msg_id r.tree.nodes
    then some msg_id
    else Option.map (λ n. n.node_id) (find_node_by_status_message msg_id r.tree)

unfoldable pub resolve_parent_node_id : Text → Repository → Option Text
unfolding resolve_in get_tree_for_node
resolve_parent_node_id msg_id s = resolve_in msg_id (get_tree_for_node msg_id s)

-- A tree that nothing has run in.
abbrev pub fresh_runtime : MessageTree → Runtime
fresh_runtime t = record { tree = t; tasks = []; current_task = none; next_serial = 0 }

abbrev pub create_tree : ℕ → Text → IncomingMessage → Text → Repository → Repository
create_tree now node_id incoming status s =
    add_tree node_id (fresh_runtime (new_tree (new_node now node_id incoming status none))) s

-- The tree object is the one in the index: a change of it is a change there.
abbrev pub put_tree : Runtime → Repository → Repository
put_tree r s = record s { trees = set_key r.tree.root_id r s.trees }

unfoldable pub with_node : Text → Runtime → Repository → Option MessageTree → Option Repository
with_node node_id r s none = none
with_node node_id r s (some t) =
    some (register_node node_id t.root_id (put_tree (record r { tree = t }) s))

unfoldable pub add_in :
    ℕ → Text → Text → IncomingMessage → Text → Repository → Option Runtime → Option Repository
unfolding with_node add_node
add_in now parent_id node_id incoming status s none = none
add_in now parent_id node_id incoming status s (some r) =
    with_node node_id r s (add_node now node_id incoming status parent_id r.tree)

unfoldable pub add_to_tree :
    ℕ → Text → Text → IncomingMessage → Text → Repository → Option Repository
unfolding add_in get_tree_for_node has_key
add_to_tree now parent_id node_id incoming status s =
    if has_key parent_id s.node_to_tree
    then add_in now parent_id node_id incoming status s (get_tree_for_node parent_id s)
    else none

enqueue_in : Text → Option Runtime → Repository → Bool × Repository
unfolding enqueue_and_start
enqueue_in node_id none s = (false, s)
enqueue_in node_id (some r) s =
    let (queued, r') = enqueue_and_start node_id r in (queued, put_tree r' s)

unfoldable pub enqueue_node : Text → Repository → Bool × Repository
unfolding enqueue_in get_tree_for_node
enqueue_node node_id s = enqueue_in node_id (get_tree_for_node node_id s) s
