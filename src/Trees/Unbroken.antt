-- ===== src/Trees/Unbroken.antt =====
-- The links of a tree after a branch was taken out.
use mathlib.Core.Option.{some-injective}
use mathlib.Core.Path.{subst}
use claude_chakra.Prelude.{
  ◌≡◌, ◌≢◌, refl, sym, ◌∙◌, ap, inl, inr, ◌⊎◌, ◌↔◌, true, false, none, some, List, if◌then◌else◌,
  Text, text_eq, text_eq_refl, text_eq_sound, is_empty, get_key, Bool-cases,
}
use claude_chakra.Trees.Queue.{contains}
use claude_chakra.Trees.Node.{MessageNode}
use claude_chakra.Trees.Tree.{MessageTree}
use claude_chakra.Trees.Linked.{Nodes, IsPlaced, IsLinked}
use claude_chakra.Trees.Branch.{children_at}
use claude_chakra.Trees.Below.{Below, here, deeper}
use claude_chakra.Trees.Remaining.{HasStatuses}
use claude_chakra.Trees.Pruned.{
  child-found, children_at-found, parent-Below, WasThere, pruned, kept-there, pruned-WasThere,
  still-there,
}

-- What is below a node is that node or has a parent.
Below-parent :
    (t : MessageTree) (h : IsLinked t) (a c : Text)
    → Below t.nodes a c
    → (a ≡ c)
      ⊎ ((x : Text) × (m : MessageNode) × (get_key c t.nodes ≡ some m) × (m.parent_id ≡ some x))
Below-parent t h _ _ (here b) = inl refl
Below-parent t h _ _ (deeper b d c child below) = elim (Below-parent t h d c below) [
  | inr found ↦ inr found
  | inl same ↦
      let (k, at, child') = child-found t.nodes b d child in
      let (m, found, up) = (h.placed b k at).down d child' in
      inr (b, m, ap (λ y. get_key y t.nodes) (sym same) ∙ found, up)
]

Below-child :
    (nodes : Nodes) (a x c : Text)
    → Below nodes a x
    → contains c (children_at nodes x) ≡ true
    → Below nodes a c
Below-child nodes _ _ c (here b) child = deeper b c c child (here c)
Below-child nodes _ _ c (deeper b d x child' below) child =
    deeper b d c child' (Below-child nodes d x c below child)

module _ (t : MessageTree) (h : IsLinked t) (id : Text) (n0 : MessageNode)
    (there : get_key id t.nodes ≡ some n0)
    (named : (p : Text) → n0.parent_id ≡ some p → is_empty p ≡ false) (ids : List Text)
    (exact : (x : Text) → (contains x ids ≡ true) ↔ Below t.nodes id x) (nodes' : Nodes)
    (kept : (x : Text) → get_key x nodes' ≡ (if contains x ids then none else get_key x t.nodes))
    (not_root : id ≢ t.root_id) (statuses' : List (Text × Text))
    (statuses-kept : HasStatuses nodes' statuses') where
  -- A node that is not listed is not below.
  above_all : (x : Text) → contains x ids ≡ false → ¬ Below t.nodes id x
  above_all x left below = let f = sym left ∙ (exact x).1 below in cc

  stays : (x : Text) → ¬ Below t.nodes id x → contains x ids ≡ false
  stays x above = elim (Bool-cases (contains x ids)) [
    | inl listed ↦ absurd (above ((exact x).0 listed))
    | inr unlisted ↦ unlisted
  ]

  unfoldable pub pruned_nodes : Nodes
  unfolding pruned
  pruned_nodes = pruned t h id n0 there named ids exact nodes' kept

  was : (x : Text) (n : MessageNode) → get_key x pruned_nodes ≡ some n → WasThere t id ids x n
  unfolding pruned_nodes
  was = pruned-WasThere t h id n0 there named ids exact nodes' kept

  still :
      (x : Text) (old : MessageNode)
      → get_key x t.nodes ≡ some old
      → contains x ids ≡ false
      → (n : MessageNode) × (get_key x pruned_nodes ≡ some n)
  unfolding pruned_nodes
  still = still-there t h id n0 there named ids exact nodes' kept

  pruned-IsPlaced :
      (x : Text) (n : MessageNode)
      → get_key x pruned_nodes ≡ some n
      → IsPlaced pruned_nodes statuses' x n
  pruned-IsPlaced x n e =
      let w = was x n e in
      let place = h.placed x w.old w.found in
      record {
        keyed = w.same_id ∙ place.keyed;
        up = λ p at.
            let (m, mat, child) = place.up p (sym w.parent ∙ at) in
            let above : ¬ Below t.nodes id p = λ below.
              above_all x w.left
                (Below-child t.nodes id p x below (children_at-found t.nodes p x m mat child)) in
            let (m', mat') = still p m mat (stays p above) in
            let w' = was p m' mat' in
            let same : m ≡ w'.old = some-injective _ _ (sym mat ∙ w'.found) in
            let apart : text_eq id x ≡ false = elim (Bool-cases (text_eq id x)) [
              | inl same_id ↦ absurd (
                  above_all x w.left
                    (subst (Below t.nodes id) (text_eq_sound id x same_id) (here id)))
              | inr other ↦ other
            ] in
            (m', mat', w'.more x (ap (λ k. contains x k.children_ids) (sym same) ∙ child) apart);
        down = λ c at.
            let (child, apart) = w.fewer c at in
            let (m, mat, up) = place.down c child in
            let above : ¬ Below t.nodes id c = λ below.
              elim (parent-Below t h id c x n m below mat up) [
                | inl same ↦
                    let f = sym apart ∙ subst (λ k. text_eq id k ≡ true) same (text_eq_refl id) in
                    cc
                | inr under ↦ above_all x w.left under
              ] in
            let (m', mat') = still c m mat (stays c above) in
            let w' = was c m' mat' in
            let same : m ≡ w'.old = some-injective _ _ (sym mat ∙ w'.found) in
            (m', mat', w'.parent ∙ (ap (λ k. k.parent_id) (sym same) ∙ up));
        indexed =
            ap (λ k. get_key k statuses') w.status
            ∙ statuses-kept x w.old
                (kept-there t h id n0 there named ids exact nodes' kept x w.old w.found w.left);
      }

  pub pruned-IsLinked : IsLinked (record t { nodes = pruned_nodes; status_to_node = statuses' })
  pruned-IsLinked = record {
    placed = pruned-IsPlaced;
    root =
        let (r, at, top) = h.root in
        let above : ¬ Below t.nodes id t.root_id = λ below.
          elim (Below-parent t h id t.root_id below) [
            | inl same ↦ not_root same
            | inr (x, m, found, up) ↦
                let e : m ≡ r = some-injective _ _ (sym found ∙ at) in
                let f = sym up ∙ (ap (λ k. k.parent_id) e ∙ top) in cc
          ] in
        let (r', at') = still t.root_id r at (stays t.root_id above) in
        let w = was t.root_id r' at' in
        let e : r ≡ w.old = some-injective _ _ (sym at ∙ w.found) in
        (r', at', w.parent ∙ (ap (λ k. k.parent_id) (sym e) ∙ top));
  }
