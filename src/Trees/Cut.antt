-- ===== src/Trees/Cut.antt =====
-- `remove_branch` in the trees that the steps of Trees.History lead to.
use claude_chakra.Prelude.{ℕ, ◌≡◌, ◌≢◌, refl, true, none, some, List, [], Text, get_key, has_key}
use claude_chakra.Trees.Node.{MessageNode}
use claude_chakra.Trees.Tree.{MessageTree}
use claude_chakra.Trees.Linked.{IsLinked}
use claude_chakra.Trees.History.{Reach, Reach-IsLinked}
use claude_chakra.Trees.Below.{Below}
use claude_chakra.Trees.Descent.{get_descendants-Below}
use claude_chakra.Trees.Removal.{remove_branch, after_removal}
use claude_chakra.Trees.Remaining.{remove_all-HasStatuses}
use claude_chakra.Trees.Detached.{HasNamedParent, IsCut, remove_branch_leaves, remove_branch-after}

-- In every tree that grows from a root with no parent and no children, by operations that add nodes
-- under new ids with new status messages only, and that remove only branches under a node that is not
-- the root and whose parent has a non-empty id: one more such removal ends with some fuel and without
-- an error. It leaves a linked tree, which has none of the nodes of the branch, and has every other
-- node of the tree, with the same parent.
pub remove_branch-IsCut :
    (root : MessageNode) (t : MessageTree) (id : Text) (n0 : MessageNode)
    → root.parent_id ≡ none
    → root.children_ids ≡ []
    → Reach root t
    → get_key id t.nodes ≡ some n0
    → id ≢ t.root_id
    → HasNamedParent id t
    → (fuel : ℕ) × (removed : List MessageNode) × (t' : MessageTree) × (remove_branch fuel id t
        ≡ some (removed, t'))
      × IsLinked t'
      × ((x : Text) → Below t.nodes id x → get_key x t'.nodes ≡ none)
      × ((x : Text) (n : MessageNode)
          → get_key x t.nodes ≡ some n
          → ¬ Below t.nodes id x
          → (n' : MessageNode) × (get_key x t'.nodes ≡ some n') × (n'.parent_id ≡ n.parent_id))
unfolding has_key
remove_branch-IsCut root t id n0 top bare reached there not_root named =
    let h = Reach-IsLinked root t top bare reached in
    let has : has_key id t.nodes ≡ true = rw there refl in
    let (fuel, ids, ends, exact) = get_descendants-Below root t top bare reached id has in
    let (removed, nodes', statuses', loop, sts, kept) =
      remove_all-HasStatuses ids t.nodes t.status_to_node λ x n e. (h.placed x n e).indexed in
    let done = remove_branch-after fuel id t ids (removed, nodes', statuses') has ends loop in
    let t' = (after_removal id t (removed, nodes', statuses')).1 in
    let c : IsCut id t t' = remove_branch_leaves fuel id t removed t' h not_root named done in
    (fuel, removed, t', done, c.linked, c.gone, c.left)
