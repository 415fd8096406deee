-- ===== src/Trees/Ranked.antt =====
-- Trees with no cycles: a child has a higher rank than its parent, and the ranks are bounded.
use mathlib.Core.Option
use mathlib.Core.Option.{some-injective}
use mathlib.Core.Path.{subst}
use claude_chakra.Prelude.{
  ℕ, ◌+◌, ◌≤◌, ◌<◌, ◌≡◌, refl, sym, ◌∙◌, ap, inl, inr, true, false, none, some, List, Text, text_eq,
  text_eq_refl, text_eq_sound, get_key, has_key, Bool-cases, Option-cases, if◌then◌else◌, arith,
}
use claude_chakra.Trees.Queue.{contains}
use claude_chakra.Trees.Node.{IncomingMessage, MessageNode}
use claude_chakra.Trees.Tree.{MessageTree, add_node}
use claude_chakra.Trees.Linked.{Nodes, IsLinked, AreRelated, Related-back}
use claude_chakra.Trees.Growth.{
  with_child, leaf, grown, grown_at, other_way, contains_added, contains_none, IsFresh,
}

pub record IsRanked (nodes : Nodes) : Type 0 where
  pub rank : Text → ℕ
  pub bound : ℕ
  pub bounded : (x : Text) → rank x ≤ bound
  pub rises :
      (x c : Text) (n : MessageNode)
      → get_key x nodes ≡ some n
      → contains c n.children_ids ≡ true
      → rank x < rank c

-- A change that keeps the links keeps the ranks.
pub IsRanked-related : (old new : Nodes) → AreRelated old new → IsRanked old → IsRanked new
unfolding AreRelated
IsRanked-related old new related h = record {
  rank = h.rank;
  bound = h.bound;
  bounded = h.bounded;
  rises = λ x c n e child.
      let (m, e', links) = Related-back _ _ n (related x) e in
      h.rises x c m e' (ap (contains c) (sym links.children) ∙ child);
}

module _ (now : ℕ) (id : Text) (incoming : IncomingMessage) (status parent : Text) (p : MessageNode)
    (nodes : Nodes) (statuses : List (Text × Text))
    (fresh : IsFresh now id incoming status parent p nodes statuses) (h : IsRanked nodes) where
  -- The new node is above all ranks.
  rank_after : Text → ℕ
  rank_after x = if text_eq id x then h.bound + 1 else h.rank x

  rank-old : (x : Text) → text_eq id x ≡ false → rank_after x ≡ h.rank x
  unfolding rank_after
  rank-old x apart = rw apart refl

  rank-new : (x : Text) → text_eq id x ≡ true → rank_after x ≡ h.bound + 1
  unfolding rank_after
  rank-new x same = rw same refl

  -- A child of an old node is an old node.
  child-old :
      (x c : Text) (m : MessageNode)
      → get_key x nodes ≡ some m
      → contains c m.children_ids ≡ true
      → text_eq id c ≡ false
  child-old x c m e child = elim (Bool-cases (text_eq id c)) [
    | inl same ↦ absurd (
        let (n, there, _) = (fresh.placed x m e).down c child in
        let f = sym fresh.new_id ∙ (ap (λ k. get_key k nodes) (text_eq_sound id c same) ∙ there) in
        cc)
    | inr apart ↦ apart
  ]

  old-rises :
      (x c : Text) (m : MessageNode)
      → get_key x nodes ≡ some m
      → text_eq id x ≡ false
      → contains c m.children_ids ≡ true
      → rank_after x < rank_after c
  old-rises x c m e apart child =
      let rises = h.rises x c m e child in
      omega (arith, rank-old x apart, rank-old c (child-old x c m e child), rises)

  grown-IsRanked : IsRanked (grown now id incoming status parent p nodes statuses)
  unfolding rank_after
  grown-IsRanked = record {
    rank = rank_after;
    bound = h.bound + 1;
    bounded = λ x. elim (Bool-cases (text_eq id x)) [
      | inl same ↦ omega (arith, rank-new x same)
      | inr apart ↦ omega (arith, rank-old x apart, h.bounded x)
    ];
    rises = λ x c n e child.
        rises-after x c n (sym (grown_at now id incoming status parent p nodes statuses x) ∙ e)
          child;
  }
    where
      rises-after :
          (x c : Text) (n : MessageNode)
          → (if text_eq parent x
              then Option.map (with_child id) (
                  if text_eq id x
                  then some (leaf now id incoming status parent p nodes statuses)
                  else get_key x nodes)
              else if text_eq id x
              then some (leaf now id incoming status parent p nodes statuses)
              else get_key x nodes)
            ≡ some n
          → contains c n.children_ids ≡ true
          → rank_after x < rank_after c
      rises-after x c n e child = elim (Bool-cases (text_eq parent x)) [
        | inl is_parent ↦
            let k = text_eq_sound parent x is_parent in
            let old_x =
              sym (ap (text_eq id) k)
              ∙ other_way now id incoming status parent p nodes statuses fresh in
            let found = sym (ap (λ y. get_key y nodes) k) ∙ fresh.found in
            let e1 = rw is_parent at e in
            let e2 = rw old_x at e1 in
            let e3 = rw found at e2 in
            let same = some-injective _ _ e3 in
            elim (contains_added c id p.children_ids
              (ap (λ m. contains c m.children_ids) same ∙ child)) [
                | inl was ↦ old-rises x c p found old_x was
                | inr new ↦
                    let top =
                      rank-new c (subst (λ y. text_eq id y ≡ true) (sym new) (text_eq_refl id)) in
                    omega (arith, top, rank-old x old_x, h.bounded x)
              ]
        | inr other ↦ elim (Bool-cases (text_eq id x)) [
          | inl is_new ↦ absurd (
              let e1 = rw is_new at (rw other at e) in
              let f =
                sym (ap (λ m. contains c m.children_ids) (some-injective _ _ e1) ∙ child)
                ∙ contains_none c in
              cc)
          | inr old_x ↦ old-rises x c n (rw old_x at (rw other at e)) old_x child
        ]
      ]

-- Adding a new node to a linked tree with ranks gives one with ranks.
pub add_node-IsRanked :
    (now : ℕ) (id : Text) (incoming : IncomingMessage) (status parent : Text) (t t' : MessageTree)
    → get_key id t.nodes ≡ none
    → get_key status t.status_to_node ≡ none
    → add_node now id incoming status parent t ≡ some t'
    → IsLinked t
    → IsRanked t.nodes
    → IsRanked t'.nodes
unfolding add_node has_key
add_node-IsRanked now id incoming status parent t t' new_id new_status added linked h =
    elim (Option-cases (get_key parent t.nodes)) [
      | inl missing ↦ absurd (let e = rw missing at added in cc)
      | inr (p, found) ↦
          let fresh : IsFresh now id incoming status parent p t.nodes t.status_to_node = record {
            found = found;
            new_id = new_id;
            new_status = new_status;
            placed = linked.placed;
          } in
          subst (λ u. IsRanked u.nodes) (some-injective _ _ (rw found at added))
            (grown-IsRanked now id incoming status parent p t.nodes t.status_to_node fresh h)
    ]
