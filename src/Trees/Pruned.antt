-- ===== src/Trees/Pruned.antt =====
-- What a tree holds after a branch was taken out: each node that is left is as it was, less the branch
-- among its children.
use mathlib.Core.Option
use mathlib.Core.Option.{some-injective}
use mathlib.Core.Path.{subst}
use claude_chakra.Prelude.{
  ◌≡◌, refl, sym, ◌∙◌, ap, inl, inr, ◌⊎◌, ◌↔◌, true, false, none, some, List, any, if◌then◌else◌,
  Text, text_eq, text_eq_refl, text_eq_sound, is_empty, get_key, Bool-cases, Option-cases, arith,
}
use claude_chakra.Trees.Queue.{contains}
use claude_chakra.Trees.Indexed.{contains-discard}
use claude_chakra.Trees.Node.{MessageNode}
use claude_chakra.Trees.Tree.{MessageTree, update, get_parent, parent_of}
use claude_chakra.Trees.Linked.{Nodes, IsLinked, get_key-update}
use claude_chakra.Trees.Branch.{children_at}
use claude_chakra.Trees.Below.{Below, here, deeper}
use claude_chakra.Trees.Removal.{without_child, detach}

pub child-found :
    (nodes : Nodes) (x c : Text)
    → contains c (children_at nodes x) ≡ true
    → (n : MessageNode) × (get_key x nodes ≡ some n) × (contains c n.children_ids ≡ true)
unfolding children_at contains any
child-found nodes x c there = elim (Option-cases (get_key x nodes)) [
  | inl missing ↦ absurd (let f = rw missing at there in cc)
  | inr (n, found) ↦ (n, found, rw found at there)
]

pub children_at-found :
    (nodes : Nodes) (x c : Text) (n : MessageNode)
    → get_key x nodes ≡ some n
    → contains c n.children_ids ≡ true
    → contains c (children_at nodes x) ≡ true
unfolding children_at
children_at-found nodes x c n found there = rw found there

-- A node has one parent.
pub one_parent :
    (t : MessageTree) (h : IsLinked t) (x y c : Text) (n m : MessageNode)
    → get_key x t.nodes ≡ some n
    → contains c n.children_ids ≡ true
    → get_key c t.nodes ≡ some m
    → m.parent_id ≡ some y
    → x ≡ y
one_parent t h x y c n m found child there up =
    let (m', there', up') = (h.placed x n found).down c child in
    let same : m' ≡ m = some-injective _ _ (sym there' ∙ there) in
    some-injective _ _ (sym up' ∙ (ap (λ k. k.parent_id) same ∙ up))

-- What is below a node and is not the node itself has its parent below it too.
pub parent-Below :
    (t : MessageTree) (h : IsLinked t) (a c x : Text) (n m : MessageNode)
    → Below t.nodes a c
    → get_key c t.nodes ≡ some m
    → m.parent_id ≡ some x
    → (a ≡ c) ⊎ Below t.nodes a x
parent-Below t h a _ x n m (here b) found up = inl refl
parent-Below t h a _ x n m (deeper b d c child below) found up =
    elim (parent-Below t h d c x n m below found up) [
      | inr under ↦ inr (deeper b d x child under)
      | inl same ↦
          let (k, at, child') = child-found t.nodes b d child in
          inr (
            subst (Below t.nodes b)
              (one_parent t h b x c k m at (ap (λ y. contains y k.children_ids) (sym same) ∙ child')
                found up)
              (here b))
    ]

-- A node that is left, as it was before: its children without the removed one.
pub record WasThere (t : MessageTree) (id : Text) (ids : List Text) (x : Text) (n : MessageNode)
    : Type 0 where
  pub old : MessageNode
  pub found : get_key x t.nodes ≡ some old
  pub left : contains x ids ≡ false
  pub same_id : n.node_id ≡ old.node_id
  pub parent : n.parent_id ≡ old.parent_id
  pub status : n.status_message_id ≡ old.status_message_id
  pub fewer :
      (c : Text)
      → contains c n.children_ids ≡ true
      → (contains c old.children_ids ≡ true) × (text_eq id c ≡ false)
  pub more :
      (c : Text)
      → contains c old.children_ids ≡ true
      → text_eq id c ≡ false
      → contains c n.children_ids ≡ true

module _ (t : MessageTree) (h : IsLinked t) (id : Text) (n0 : MessageNode)
    (there : get_key id t.nodes ≡ some n0)
    (named : (p : Text) → n0.parent_id ≡ some p → is_empty p ≡ false) (ids : List Text)
    (exact : (x : Text) → (contains x ids ≡ true) ↔ Below t.nodes id x) (nodes' : Nodes)
    (kept : (x : Text)
      → get_key x nodes' ≡ (if contains x ids then none else get_key x t.nodes)) where
  unfoldable pub pruned : Nodes
  unfolding get_parent detach
  pruned = detach (get_parent id t) id nodes'

  pub kept-found :
      (x : Text) (n : MessageNode)
      → get_key x nodes' ≡ some n
      → (get_key x t.nodes ≡ some n) × (contains x ids ≡ false)
  kept-found x n e = elim (Bool-cases (contains x ids)) [
    | inl gone ↦ absurd (
        let none_there : get_key x nodes' ≡ none = kept x ∙ rw gone refl in
        let f = sym none_there ∙ e in cc)
    | inr stays ↦
        let same : get_key x nodes' ≡ get_key x t.nodes = kept x ∙ rw stays refl in
        (sym same ∙ e, stays)
  ]

  pub kept-there :
      (x : Text) (n : MessageNode)
      → get_key x t.nodes ≡ some n
      → contains x ids ≡ false
      → get_key x nodes' ≡ some n
  kept-there x n e stays = kept x ∙ rw stays e

  -- A node that lists the removed one is its parent.
  lists-parent :
      (x c : Text) (n : MessageNode)
      → get_key x t.nodes ≡ some n
      → contains c n.children_ids ≡ true
      → text_eq id c ≡ true
      → n0.parent_id ≡ some x
  lists-parent x c n found child same =
      let (m, at, up) = (h.placed x n found).down c child in
      let e : m ≡ n0 =
        some-injective _ _
          (sym at ∙ (ap (λ k. get_key k t.nodes) (sym (text_eq_sound id c same)) ∙ there)) in
      ap (λ k. k.parent_id) (sym e) ∙ up

  -- A node that is not the parent stays as it is.
  same-WasThere :
      (x : Text) (n : MessageNode)
      → get_key x nodes' ≡ some n
      → ¬ (n0.parent_id ≡ some x)
      → WasThere t id ids x n
  same-WasThere x n e other =
      let (found, left) = kept-found x n e in
      record {
        old = n;
        found = found;
        left = left;
        same_id = refl;
        parent = refl;
        status = refl;
        fewer = λ c child. (
          child,
          elim (Bool-cases (text_eq id c)) [
            | inl same ↦ absurd (other (lists-parent x c n found child same))
            | inr apart ↦ apart
          ],
        );
        more = λ c child apart. child;
      }

  -- The parent loses the removed child.
  parent-WasThere :
      (x : Text) (n : MessageNode)
      → get_key x nodes' ≡ some n
      → WasThere t id ids x (without_child id n)
  parent-WasThere x n e =
      let (found, left) = kept-found x n e in
      record {
        old = n;
        found = found;
        left = left;
        same_id = refl;
        parent = refl;
        status = refl;
        fewer = λ c child. ground (arith, contains-discard c id n.children_ids, child);
        more = λ c child apart. contains-discard c id n.children_ids ∙ ground (arith, child, apart);
      }

  -- With no parent, or with one, which is there.
  pruned-cases :
      ((n0.parent_id ≡ none) × (pruned ≡ nodes'))
      ⊎ ((p : Text) × (n0.parent_id ≡ some p) × (pruned ≡ update p (without_child id) nodes'))
  unfolding pruned get_parent parent_of detach Option.bind
  pruned-cases = elim (Option-cases n0.parent_id) [
    | inl top ↦ inl (
      top,
      ap (λ o. detach (Option.bind o (λ n. parent_of n.parent_id t)) id nodes') there
          ∙ ap (λ o. detach (parent_of o t) id nodes') top,
    )
    | inr (p, up) ↦
        let (m, at, child) = (h.placed id n0 there).up p up in
        inr (
          p,
          up,
          ap (λ o. detach (Option.bind o (λ n. parent_of n.parent_id t)) id nodes') there
              ∙ (ap (λ o. detach (parent_of o t) id nodes') up
                  ∙ (ap (λ b. detach (if b then none else get_key p t.nodes) id nodes') (named p up)
                      ∙ (ap (λ o. detach o id nodes') at
                          ∙ (ap
                                (λ b.
                                  if b then update m.node_id (without_child id) nodes' else nodes')
                                child
                              ∙ ap (λ k. update k (without_child id) nodes')
                                  ((h.placed p m at).keyed))))),
        )
  ]

  pub pruned-WasThere :
      (x : Text) (n : MessageNode) → get_key x pruned ≡ some n → WasThere t id ids x n
  pruned-WasThere x n e = elim pruned-cases [
    | inl (top, same) ↦
        same-WasThere x n (sym (ap (get_key x) same) ∙ e) λ up. (let f = sym top ∙ up in cc)
    | inr (p, up, changed) ↦
        let e' = sym (ap (get_key x) changed ∙ get_key-update p x (without_child id) nodes') ∙ e in
        elim (Bool-cases (text_eq p x)) [
          | inl is_p ↦ elim (Option-cases (get_key x nodes')) [
            | inl missing ↦ absurd (let f = rw missing at (rw is_p at e') in cc)
            | inr (m, at) ↦
                subst (WasThere t id ids x) (some-injective _ _ (rw at at (rw is_p at e')))
                  (parent-WasThere x m at)
          ]
          | inr other ↦ same-WasThere x n (rw other at e') λ up'.
              (let q : p ≡ x = some-injective _ _ (sym up ∙ up') in
                let f = sym other ∙ subst (λ k. text_eq p k ≡ true) q (text_eq_refl p) in cc)
        ]
  ]

  pub still-there :
      (x : Text) (old : MessageNode)
      → get_key x t.nodes ≡ some old
      → contains x ids ≡ false
      → (n : MessageNode) × (get_key x pruned ≡ some n)
  still-there x old found left =
      let at = kept-there x old found left in
      elim pruned-cases [
        | inl (top, same) ↦ (old, ap (get_key x) same ∙ at)
        | inr (p, up, changed) ↦ elim (Bool-cases (text_eq p x)) [
          | inl is_p ↦ (
            without_child id old,
            ap (get_key x) changed
                ∙ (get_key-update p x (without_child id) nodes' ∙ rw is_p (rw at refl)),
          )
          | inr other ↦ (
            old,
            ap (get_key x) changed ∙ (get_key-update p x (without_child id) nodes' ∙ rw other at),
          )
        ]
      ]
