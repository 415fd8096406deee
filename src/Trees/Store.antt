-- ===== src/Trees/Store.antt =====
-- messaging/trees/data.py: `MessageTree.to_dict` and `MessageTree.from_dict`. `none` is an exception:
-- a missing key, or a value that is not what `to_dict` writes. `read_at` says when the node of an id
-- is read.
use mathlib.Core.Option
use claude_chakra.Prelude.{
  ℕ, Option, some, List, [], ◌∷◌, if◌then◌else◌, Text, codes, text_eq, set_key,
}
use claude_chakra.Trees.Node.{MessageNode}
use claude_chakra.Trees.Tree.{MessageTree, new_tree}
use claude_chakra.Trees.Form.{
  Json, str, obj, Fields, end, field, lookup, as_fields, text_at, to_dict, from_dict,
}

-- `_add_node_from_dict`.
abbrev pub add_node_from_dict : MessageNode → MessageTree → MessageTree
add_node_from_dict n t = record t {
  nodes = set_key n.node_id n t.nodes;
  status_to_node = set_key n.status_message_id n.node_id t.status_to_node;
}

module _ (isoformat : ℕ → Text) (fromisoformat : Text → Option ℕ) (read_at : Text → ℕ) where
  unfoldable pub write_nodes : List (Text × MessageNode) → Fields
  write_nodes [] = end
  write_nodes ((id, n) ∷ rest) =
      field id (obj (to_dict isoformat fromisoformat n)) (write_nodes rest)

  unfoldable pub tree_to_dict : MessageTree → Fields
  unfolding write_nodes
  tree_to_dict t =
      field (codes "root_id") (str t.root_id)
        (field (codes "nodes") (obj (write_nodes t.nodes)) end)

  unfoldable pub read_node : Text → Json → Option MessageNode
  unfolding as_fields
  read_node id v = Option.bind (as_fields v) (from_dict isoformat fromisoformat (read_at id))

  -- The loop over the nodes that are not the root.
  unfoldable pub load : Text → Fields → MessageTree → Option MessageTree
  unfolding read_node
  load root_id end t = some t
  load root_id (field id v rest) t =
      let go = load root_id rest in
      if text_eq id root_id
      then go t
      else Option.bind (read_node id v) λ n. go (add_node_from_dict n t)

  unfoldable pub tree_from_dict : Fields → Option MessageTree
  unfolding load text_at lookup as_fields
  tree_from_dict fs = Option.bind (text_at (codes "root_id") fs) λ root_id.
      Option.bind (Option.bind (lookup (codes "nodes") fs) as_fields) λ nodes_data.
        Option.bind (Option.bind (lookup root_id nodes_data) (read_node root_id))
          λ root. load root_id nodes_data (new_tree root)
