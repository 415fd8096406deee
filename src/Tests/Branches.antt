-- ===== src/Tests/Branches.antt =====
-- What stands below the root of a conversation of two nodes.
use mathlib.Core.Option.{some-injective}
use claude_chakra.Trees.Node.{MessageNode, new_node}
use claude_chakra.Trees.Tree.{MessageTree, update, update_in}
use claude_chakra.Trees.Linked.{IsLinked}
use claude_chakra.Trees.Removal.{remove_branch}
use claude_chakra.Trees.Cut.{remove_branch-IsCut}
use claude_chakra.Trees.Detached.{HasNamedParent}
use claude_chakra.Prelude.{
  is_empty, sym, ap, ◌∙◌, ◌≡◌, ◌↔◌, refl, true, none, some, List, Text, codes, get_key, set_key,
  has_key, text_eq, ℕ,
}
use claude_chakra.Trees.Queue.{contains}
use claude_chakra.Trees.Tree.{update_state}
use claude_chakra.Trees.Branch.{get_descendants, get_pending_children}
use claude_chakra.Trees.Below.{Below}
use claude_chakra.Trees.Descent.{get_descendants-Below, get_pending_children-ends}
use claude_chakra.Tests.Conversations.{message, root, finished, history}

get_descendants-Below_example :
    (fuel : ℕ) × (r : List Text) × (get_descendants fuel (codes "m1") finished.nodes ≡ some r)
    × ((x : Text) → (contains x r ≡ true) ↔ Below finished.nodes (codes "m1") x)
unfolding has_key get_key text_eq update_state set_key
get_descendants-Below_example =
    get_descendants-Below root finished refl refl history (codes "m1") refl

get_pending_children-ends_example :
    (fuel : ℕ) × (r : List Text) × (get_pending_children fuel (codes "m1") finished.nodes ≡ some r)
get_pending_children-ends_example =
    get_pending_children-ends root finished refl refl history (codes "m1")

second-HasNamedParent : HasNamedParent (codes "m2") finished
unfolding get_key set_key update update_in update_state text_eq is_empty
second-HasNamedParent n p e up =
    let same = some-injective _ _ e in
    ap is_empty (sym (some-injective _ _ (ap (λ k. k.parent_id) same ∙ up)))

remove_branch-IsCut_example :
    (fuel : ℕ) × (removed : List MessageNode) × (t' : MessageTree) × (remove_branch fuel
        (codes "m2")
        finished
      ≡ some (removed, t'))
    × IsLinked t'
    × ((x : Text) → Below finished.nodes (codes "m2") x → get_key x t'.nodes ≡ none)
    × ((x : Text) (n : MessageNode)
        → get_key x finished.nodes ≡ some n
        → ¬ Below finished.nodes (codes "m2") x
        → (n' : MessageNode) × (get_key x t'.nodes ≡ some n') × (n'.parent_id ≡ n.parent_id))
unfolding get_key set_key update update_in update_state text_eq is_empty
remove_branch-IsCut_example =
    remove_branch-IsCut root finished (codes "m2")
      (new_node 2 (codes "m2") message (codes "s2") (some (codes "m1"))) refl refl history refl
      (λ e. (let f = sym (ap (text_eq (codes "m2")) e) ∙ refl in cc)) second-HasNamedParent
