-- ===== src/Tests/Indexes.antt =====
-- An index with one tree of two nodes.
use claude_chakra.Prelude.{
  ◌≡◌, refl, some, [], ◌∷◌, codes, text_eq, get_key, set_key, has_key, is_empty,
}
use claude_chakra.Trees.Node.{new_node}
use claude_chakra.Trees.Tree.{add_node, update, update_in}
use claude_chakra.Manager.{
  Repository, new_repository, fresh_runtime, create_tree, add_to_tree, add_in, with_node,
  get_tree_for_node, tree_of_root, get_node, resolve_parent_node_id,
}
use claude_chakra.Manager.Index.{Reach, start, next, creates, adds, Reach-finds}
use claude_chakra.Tests.Conversations.{message, grown}

abbrev first_only : Repository
first_only = create_tree 1 (codes "m1") message (codes "s1") new_repository

abbrev both : Repository
both = record {
  trees = (codes "m1", fresh_runtime grown) ∷ [];
  node_to_tree = (codes "m1", codes "m1") ∷ (codes "m2", codes "m1") ∷ [];
}

both_result : add_to_tree 2 (codes "m1") (codes "m2") message (codes "s2") first_only ≡ some both
unfolding add_to_tree add_in with_node get_tree_for_node tree_of_root add_node has_key get_key
    set_key update update_in text_eq is_empty
both_result = refl

both_reached : Reach both
unfolding get_key set_key text_eq is_empty
both_reached =
    next first_only both
      (next new_repository first_only start (creates 1 (codes "m1") message (codes "s1") refl refl))
      (adds 2 (codes "m1") (codes "m2") message (codes "s2") both refl both_result)

Reach-finds_example :
    (get_tree_for_node (codes "m2") both ≡ some (fresh_runtime grown))
    × (get_node (codes "m2") both
        ≡ some (new_node 2 (codes "m2") message (codes "s2") (some (codes "m1"))))
    × (resolve_parent_node_id (codes "m2") both ≡ some (codes "m2"))
unfolding get_key text_eq
Reach-finds_example =
    Reach-finds both (codes "m1") (codes "m2") (fresh_runtime grown)
      (new_node 2 (codes "m2") message (codes "s2") (some (codes "m1"))) both_reached refl refl
