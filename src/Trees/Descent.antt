-- ===== src/Trees/Descent.antt =====
-- `get_descendants` and `get_pending_children` in the trees that the steps of Trees.History lead to.
use claude_chakra.Prelude.{ℕ, ◌≡◌, none, some, true, List, [], Text, has_key, ◌↔◌}
use claude_chakra.Trees.Queue.{contains}
use claude_chakra.Trees.Node.{MessageNode}
use claude_chakra.Trees.Tree.{MessageTree}
use claude_chakra.Trees.Branch.{get_descendants, get_pending_children}
use claude_chakra.Trees.Below.{Below}
use claude_chakra.Trees.Loops.{descend-ends, collect_pending-ends, descendants_exact}
use claude_chakra.Trees.History.{Reach}
use claude_chakra.Trees.Acyclic.{Reach-IsRanked}

-- In every tree that grows from a root with no parent and no children, by operations that add nodes
-- under new ids with new status messages only, and that remove only branches under a node that is not
-- the root and whose parent has a non-empty id: `get_descendants` of a node ends with some fuel, and
-- lists exactly the node, its children, their children and so on.
pub get_descendants-Below :
    (root : MessageNode) (t : MessageTree)
    → root.parent_id ≡ none
    → root.children_ids ≡ []
    → Reach root t
    → (id : Text) → has_key id t.nodes ≡ true
    → (fuel : ℕ) × (r : List Text) × (get_descendants fuel id t.nodes ≡ some r)
      × ((x : Text) → (contains x r ≡ true) ↔ Below t.nodes id x)
unfolding get_descendants
get_descendants-Below root t top bare reached id there =
    let (fuel, r, ends) = descend-ends t.nodes (Reach-IsRanked root t top bare reached) id in
    let done : get_descendants fuel id t.nodes ≡ some r = rw there ends in
    (fuel, r, done, descendants_exact t.nodes fuel id r there done)

-- In every tree that grows from a root with no parent and no children, by operations that add nodes
-- under new ids with new status messages only, and that remove only branches under a node that is not
-- the root and whose parent has a non-empty id: `get_pending_children` ends with some fuel.
pub get_pending_children-ends :
    (root : MessageNode) (t : MessageTree)
    → root.parent_id ≡ none
    → root.children_ids ≡ []
    → Reach root t
    → (id : Text) → (fuel : ℕ) × (r : List Text) × (get_pending_children fuel id t.nodes ≡ some r)
get_pending_children-ends root t top bare reached id =
    collect_pending-ends t.nodes (Reach-IsRanked root t top bare reached) id
