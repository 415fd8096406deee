-- ===== src/Trees/Added.antt =====
-- What `add_node` does to a linked tree.
use mathlib.Core.Option
use mathlib.Core.Option.{some-injective}
use mathlib.Core.Path.{subst}
use claude_chakra.Prelude.{
  ℕ, ◌≡◌, refl, sym, ◌∙◌, ap, inl, inr, none, some, Text, text_eq, text_eq_sound, if◌then◌else◌,
  get_key, set_key, get_key-set_key, has_key, Bool-cases, Option-cases, false,
}
use claude_chakra.Trees.Node.{IncomingMessage, MessageNode, new_node}
use claude_chakra.Trees.Tree.{MessageTree, add_node}
use claude_chakra.Trees.Linked.{IsLinked}
use claude_chakra.Trees.Growth.{with_child, grown, grown_at, IsFresh}
use claude_chakra.Trees.History.{add_node-IsLinked}

-- `t'` is `t` with one more leaf.
pub record IsAdded (leaf : MessageNode) (id status parent : Text) (t t' : MessageTree)
    : Type 0 where
  pub nodes :
      (x : Text)
      → get_key x t'.nodes ≡ (
          if text_eq id x
          then some leaf
          else if text_eq parent x
          then Option.map (with_child id) (get_key x t.nodes)
          else get_key x t.nodes)
  pub statuses :
      (s : Text)
      → get_key s t'.status_to_node
        ≡ (if text_eq status s then some id else get_key s t.status_to_node)
  pub rest : record t' { nodes = t.nodes; status_to_node = t.status_to_node } ≡ t

module _ (now : ℕ) (id : Text) (incoming : IncomingMessage) (status parent : Text) (t : MessageTree)
    (p : MessageNode)
    (fresh : IsFresh now id incoming status parent p t.nodes t.status_to_node) where
  grown_tree : MessageTree
  grown_tree = record t {
    nodes = grown now id incoming status parent p t.nodes t.status_to_node;
    status_to_node = set_key status id t.status_to_node;
  }

  grown_tree-IsAdded :
      IsAdded (new_node now id incoming status (some parent)) id status parent t grown_tree
  unfolding grown_tree
  grown_tree-IsAdded = record {
    nodes = λ x.
        grown_at now id incoming status parent p t.nodes t.status_to_node x
        ∙ elim (Bool-cases (text_eq id x)) [
          | inl same ↦
              let above : text_eq parent x ≡ false =
                sym (ap (text_eq parent) (text_eq_sound id x same)) ∙ apart in
              rw above (rw same refl)
          | inr old ↦ rw old refl
        ];
    statuses = λ s. get_key-set_key status s id t.status_to_node;
    rest = refl;
  }
    where
      apart : text_eq parent id ≡ false
      apart = elim (Bool-cases (text_eq parent id)) [
        | inl same ↦ absurd (
            let e =
              sym fresh.found
              ∙ (ap (λ k. get_key k t.nodes) (text_eq_sound parent id same) ∙ fresh.new_id) in
            cc)
        | inr differs ↦ differs
      ]

-- Adding a node whose id and status message are new to a linked tree gives a linked tree. The new
-- node stands under its id, pending and with no children, and comes last among the children of its
-- parent; every other node is as it was. The status message leads to the new node, and the others
-- where they led. The queue and the rest of the tree are as they were.
pub add_node-adds :
    (now : ℕ) (id : Text) (incoming : IncomingMessage) (status parent : Text) (t t' : MessageTree)
    → get_key id t.nodes ≡ none
    → get_key status t.status_to_node ≡ none
    → add_node now id incoming status parent t ≡ some t'
    → IsLinked t
    → IsLinked t' × IsAdded (new_node now id incoming status (some parent)) id status parent t t'
unfolding add_node has_key grown_tree
add_node-adds now id incoming status parent t t' new_id new_status added h = (
  add_node-IsLinked now id incoming status parent t t' new_id new_status added h,
  elim (Option-cases (get_key parent t.nodes)) [
    | inl missing ↦ absurd (let e = rw missing at added in cc)
    | inr (p, found) ↦
        let fresh : IsFresh now id incoming status parent p t.nodes t.status_to_node = record {
          found = found;
          new_id = new_id;
          new_status = new_status;
          placed = h.placed;
        } in
        subst (IsAdded (new_node now id incoming status (some parent)) id status parent t)
          (some-injective _ _ (rw found at added))
          (grown_tree-IsAdded now id incoming status parent t p fresh)
  ],
)
