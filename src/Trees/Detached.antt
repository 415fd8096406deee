-- ===== src/Trees/Detached.antt =====
-- What the removal of a branch leaves of a linked tree.
use mathlib.Core.Option
use mathlib.Core.Option.{some-injective}
use mathlib.Core.Path.{subst}
use claude_chakra.Prelude.{
  ℕ, ◌≡◌, ◌≢◌, refl, sym, ◌∙◌, ap, inl, inr, ◌↔◌, true, false, none, some, List, [], if◌then◌else◌,
  Text, is_empty, get_key, has_key, Bool-cases, Option-cases,
}
use claude_chakra.Trees.Queue.{contains}
use claude_chakra.Trees.Node.{MessageNode}
use claude_chakra.Trees.Tree.{MessageTree}
use claude_chakra.Trees.Linked.{Nodes, IsLinked}
use claude_chakra.Trees.Branch.{get_descendants}
use claude_chakra.Trees.Below.{Below, Below-cases}
use claude_chakra.Trees.Loops.{descendants_exact}
use claude_chakra.Trees.Removal.{remove_all, remove_branch, after_removal, Removed}
use claude_chakra.Trees.Remaining.{HasStatuses, remove_all-HasStatuses}
use claude_chakra.Trees.Unbroken.{pruned_nodes, pruned-IsLinked}
use claude_chakra.Trees.Pruned.{child-found, pruned, pruned-WasThere, still-there}

pub remove_branch-after :
    (fuel : ℕ) (id : Text) (t : MessageTree) (ids : List Text) (r : Removed)
    → has_key id t.nodes ≡ true
    → get_descendants fuel id t.nodes ≡ some ids
    → remove_all ids t.nodes t.status_to_node ≡ some r
    → remove_branch fuel id t ≡ some (after_removal id t r)
unfolding remove_branch Option.bind
remove_branch-after fuel id t ids r has ends loop =
    let after = λ (is : List Text).
      Option.map (after_removal id t) (remove_all is t.nodes t.status_to_node) in
    ap (λ b. if b then Option.bind (get_descendants fuel id t.nodes) after else some ([], t)) has
    ∙ (ap (λ o. Option.bind o after) ends ∙ ap (Option.map (after_removal id t)) loop)

remove_branch-out :
    (fuel : ℕ) (id : Text) (t : MessageTree)
    → has_key id t.nodes ≡ true
    → get_descendants fuel id t.nodes ≡ none
    → remove_branch fuel id t ≡ none
unfolding remove_branch Option.bind
remove_branch-out fuel id t has out =
    let after = λ (is : List Text).
      Option.map (after_removal id t) (remove_all is t.nodes t.status_to_node) in
    ap (λ b. if b then Option.bind (get_descendants fuel id t.nodes) after else some ([], t)) has
    ∙ ap (λ o. Option.bind o after) out

-- The node that stands under `x` in `old`, with the parent of `n` and at least its children.
pub record HadNode (old : Nodes) (x : Text) (n : MessageNode) : Type 0 where
  pub node : MessageNode
  pub found : get_key x old ≡ some node
  pub parent : n.parent_id ≡ node.parent_id
  pub fewer : (c : Text) → contains c n.children_ids ≡ true → contains c node.children_ids ≡ true

-- `t'` is `t` without all that is below `id`.
pub record IsCut (id : Text) (t t' : MessageTree) : Type 0 where
  pub linked : IsLinked t'
  pub was : (x : Text) (n : MessageNode) → get_key x t'.nodes ≡ some n → HadNode t.nodes x n
  pub gone : (x : Text) → Below t.nodes id x → get_key x t'.nodes ≡ none
  pub left :
      (x : Text) (n : MessageNode)
      → get_key x t.nodes ≡ some n
      → ¬ Below t.nodes id x
      → (n' : MessageNode) × (get_key x t'.nodes ≡ some n') × (n'.parent_id ≡ n.parent_id)

-- The parent of the node has a non-empty id.
abbrev pub HasNamedParent : Text → MessageTree → Type 0
HasNamedParent id t =
    (n : MessageNode) (p : Text)
    → get_key id t.nodes ≡ some n
    → n.parent_id ≡ some p
    → is_empty p ≡ false

-- Nothing is below an id that is not in the tree, but the id itself.
absent-IsCut : (id : Text) (t : MessageTree) → IsLinked t → get_key id t.nodes ≡ none → IsCut id t t
absent-IsCut id t h missing = record {
  linked = h;
  was = λ x n e. record { node = n; found = e; parent = refl; fewer = λ c child. child };
  gone = λ x below. elim (Below-cases t.nodes id x below) [
    | inl same ↦ ap (λ k. get_key k t.nodes) (sym same) ∙ missing
    | inr (c, child, under) ↦
        absurd
          (let (n, found, _) = child-found t.nodes id c child in let f = sym missing ∙ found in cc)
  ];
  left = λ x n e above. (n, e, refl);
}

removal-IsCut :
    (t : MessageTree) (h : IsLinked t) (id : Text) (n0 : MessageNode)
    (there : get_key id t.nodes ≡ some n0) (ids : List Text)
    (exact : (x : Text) → (contains x ids ≡ true) ↔ Below t.nodes id x) (r : Removed)
    → id ≢ t.root_id
    → HasNamedParent id t
    → HasStatuses r.1 r.2
    → ((x : Text) → get_key x r.1 ≡ (if contains x ids then none else get_key x t.nodes))
    → IsCut id t (after_removal id t r).1
unfolding pruned_nodes pruned
removal-IsCut t h id n0 there ids exact (removed, nodes', statuses') not_root named sts kept =
    let parent-named = λ (p : Text) (up : n0.parent_id ≡ some p). named n0 p there up in
    let had = pruned-WasThere t h id n0 there parent-named ids exact nodes' kept in
    record {
      linked =
          pruned-IsLinked t h id n0 there parent-named ids exact nodes' kept not_root statuses' sts;
      was = λ x n e.
          let w = had x n e in
          record {
            node = w.old;
            found = w.found;
            parent = w.parent;
            fewer = λ c child. (w.fewer c child).0;
          };
      gone = λ x below.
          elim (Option-cases
            (get_key x (after_removal id t (removed, nodes', statuses')).1.nodes)) [
              | inl missing ↦ missing
              | inr (n, found) ↦ absurd (let f = sym (had x n found).left ∙ (exact x).1 below in cc)
            ];
      left = λ x n e above.
          let unlisted : contains x ids ≡ false = elim (Bool-cases (contains x ids)) [
            | inl listed ↦ absurd (above ((exact x).0 listed))
            | inr other ↦ other
          ] in
          let (n', at) =
            still-there t h id n0 there parent-named ids exact nodes' kept x n e unlisted in
          let w = had x n' at in
          (n', at, w.parent ∙ ap (λ k. k.parent_id) (some-injective _ _ (sym w.found ∙ e)));
    }

-- The removal of a branch, whenever it ends without an error.
pub remove_branch_leaves :
    (fuel : ℕ) (id : Text) (t : MessageTree) (removed : List MessageNode) (t' : MessageTree)
    → IsLinked t
    → id ≢ t.root_id
    → HasNamedParent id t
    → remove_branch fuel id t ≡ some (removed, t')
    → IsCut id t t'
unfolding remove_branch has_key Option.bind
remove_branch_leaves fuel id t removed t' h not_root named done =
    elim (Option-cases (get_key id t.nodes)) [
      | inl missing ↦
          let same = some-injective _ _ (rw missing at done) in
          subst (IsCut id t) (ap (λ r. r.1) same) (absent-IsCut id t h missing)
      | inr (n0, there) ↦
          let has : has_key id t.nodes ≡ true = rw there refl in
          elim (Option-cases (get_descendants fuel id t.nodes)) [
            | inl out ↦ absurd (let f = sym (remove_branch-out fuel id t has out) ∙ done in cc)
            | inr (ids, ends) ↦
                let (rs, nodes', statuses', loop, sts, kept) =
                  remove_all-HasStatuses ids t.nodes t.status_to_node
                    λ x n e. (h.placed x n e).indexed in
                let result =
                  remove_branch-after fuel id t ids (rs, nodes', statuses') has ends loop in
                subst (λ r. IsCut id t r.1) (some-injective _ _ (sym result ∙ done))
                  (removal-IsCut t h id n0 there ids
                    (descendants_exact t.nodes fuel id ids has ends) (rs, nodes', statuses')
                    not_root named sts kept)
          ]
    ]
