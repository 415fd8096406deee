-- ===== src/Manager/Registered.antt =====
-- The index of the trees: every node of every tree leads to its tree.
use mathlib.Core.Option
use mathlib.Core.Option.{some-injective}
use mathlib.Core.Path.{subst}
use claude_chakra.Prelude.{
  ℕ, ◌≡◌, refl, sym, ◌∙◌, ap, inl, inr, ◌⊎◌, Bool, true, false, Option, none, some, List,
  if◌then◌else◌, Text, text_eq, text_eq_refl, text_eq_sound, is_empty, get_key, set_key, has_key,
  get_key-set_key, Bool-cases,
}
use claude_chakra.Trees.Node.{IncomingMessage, MessageNode}
use claude_chakra.Trees.Tree.{MessageTree, add_node}
use claude_chakra.Trees.Linked.{get_key-update}
use claude_chakra.Processor.{Runtime}
use claude_chakra.Manager.{Repository, register_node, put_tree, create_tree}

pub record IsRegistered (s : Repository) : Type 0 where
  pub named :
      (root : Text) (r : Runtime)
      → get_key root s.trees ≡ some r
      → (r.tree.root_id ≡ root) × (is_empty root ≡ false)
  pub leads :
      (root x : Text) (r : Runtime) (n : MessageNode)
      → get_key root s.trees ≡ some r
      → get_key x r.tree.nodes ≡ some n
      → get_key x s.node_to_tree ≡ some root

-- An entry that is set, or an old one.
set-cases :
    {A : Type 0} (k x : Text) (a b : A) (d : List (Text × A))
    → get_key x (set_key k a d) ≡ some b
    → ((k ≡ x) × (a ≡ b)) ⊎ (get_key x d ≡ some b)
set-cases k x a b d e = elim (Bool-cases (text_eq k x)) [
  | inl same ↦
      inl (
        text_eq_sound k x same,
        some-injective _ _ (rw same at (sym (get_key-set_key k x a d) ∙ e)),
      )
  | inr apart ↦ inr (rw apart at (sym (get_key-set_key k x a d) ∙ e))
]

-- A registered id stays so when an id is registered that was not.
register-keeps :
    (k x root root' : Text) (d : List (Text × Text))
    → get_key k d ≡ none
    → get_key x d ≡ some root
    → get_key x (set_key k root' d) ≡ some root
register-keeps k x root root' d new e = elim (Bool-cases (text_eq k x)) [
  | inl same ↦ absurd (let f = sym new ∙ (ap (λ y. get_key y d) (text_eq_sound k x same) ∙ e) in cc)
  | inr apart ↦ get_key-set_key k x root' d ∙ rw apart e
]

registered : (k root : Text) (d : List (Text × Text)) → get_key k (set_key k root d) ≡ some root
registered k root d = get_key-set_key k k root d ∙ rw (text_eq_refl k) refl

some_before :
    (b : Bool) (f : MessageNode → MessageNode) (o : Option MessageNode) (n : MessageNode)
    → (if b then Option.map f o else o) ≡ some n
    → (m : MessageNode) × (o ≡ some m)
some_before true f none n e = absurd cc
some_before true f (some m) n e = (m, refl)
some_before false f none n e = absurd cc
some_before false f (some m) n e = (m, refl)

-- The nodes after one was added: the new one, and those that were there.
added-cases :
    (now : ℕ) (id : Text) (incoming : IncomingMessage) (status parent : Text) (t t' : MessageTree)
    (x : Text) (n : MessageNode)
    → add_node now id incoming status parent t ≡ some t'
    → get_key x t'.nodes ≡ some n
    → (id ≡ x) ⊎ ((m : MessageNode) × (get_key x t.nodes ≡ some m))
unfolding add_node has_key
added-cases now id incoming status parent t t' x n e found =
    elim (Bool-cases (has_key parent t.nodes)) [
      | inr missing ↦ absurd (let f = rw missing at e in cc)
      | inl there ↦
          let same = some-injective _ _ (rw there at e) in
          let found' = ap (λ u. get_key x u.nodes) same ∙ found in
          let (m, before) =
            some_before (text_eq parent x) _ _ n (sym (get_key-update parent x _ _) ∙ found') in
          elim (set-cases id x _ m t.nodes before) [
            | inl (new, _) ↦ inl new
            | inr old ↦ inr (m, old)
          ]
    ]

add_node-root :
    (now : ℕ) (id : Text) (incoming : IncomingMessage) (status parent : Text) (t t' : MessageTree)
    → add_node now id incoming status parent t ≡ some t'
    → t'.root_id ≡ t.root_id
unfolding add_node
add_node-root now id incoming status parent t t' e = elim (Bool-cases (has_key parent t.nodes)) [
  | inr missing ↦ absurd (let f = rw missing at e in cc)
  | inl there ↦ ap (λ u. u.root_id) (sym (some-injective _ _ (rw there at e)))
]

pub create_tree-IsRegistered :
    (now : ℕ) (id : Text) (incoming : IncomingMessage) (status : Text) (s : Repository)
    → get_key id s.node_to_tree ≡ none
    → is_empty id ≡ false
    → IsRegistered s
    → IsRegistered (create_tree now id incoming status s)
unfolding get_key
create_tree-IsRegistered now id incoming status s new filled h = record {
  named = λ root r e. elim (set-cases id root _ r s.trees e) [
    | inl (here, same) ↦
        (ap (λ k. k.tree.root_id) (sym same) ∙ here, ap is_empty (sym here) ∙ filled)
    | inr old ↦ h.named root r old
  ];
  leads = λ root x r n e found. elim (set-cases id root _ r s.trees e) [
    | inl (here, same) ↦ elim (Bool-cases (text_eq id x)) [
      | inl is_root ↦
          subst (λ k. get_key k (set_key id id s.node_to_tree) ≡ some root)
            (text_eq_sound id x is_root) (registered id id s.node_to_tree ∙ ap some here)
      | inr other ↦
          absurd (let f = rw other at (ap (λ k. get_key x k.tree.nodes) same ∙ found) in cc)
    ]
    | inr old ↦ register-keeps id x root id s.node_to_tree new (h.leads root x r n old found)
  ];
}

pub register_node-IsRegistered :
    (id root : Text) (s : Repository)
    → get_key id s.node_to_tree ≡ none
    → IsRegistered s
    → IsRegistered (register_node id root s)
register_node-IsRegistered id root s new h = record {
  named = h.named;
  leads = λ root' x r n e found.
      register-keeps id x root' root s.node_to_tree new (h.leads root' x r n e found);
}

-- A node was added to the tree of a root.
pub with_node-IsRegistered :
    (now : ℕ) (id : Text) (incoming : IncomingMessage) (status parent root : Text) (r : Runtime)
    (t : MessageTree) (s : Repository)
    → get_key id s.node_to_tree ≡ none
    → get_key root s.trees ≡ some r
    → add_node now id incoming status parent r.tree ≡ some t
    → IsRegistered s
    → IsRegistered (register_node id t.root_id (put_tree (record r { tree = t }) s))
with_node-IsRegistered now id incoming status parent root r t s new at added h =
    let at_root : t.root_id ≡ root =
      add_node-root now id incoming status parent r.tree t added ∙ (h.named root r at).0 in
    record {
      named = λ root' r' e. elim (set-cases t.root_id root' _ r' s.trees e) [
        | inl (here, same) ↦ (
          ap (λ k. k.tree.root_id) (sym same) ∙ here,
          ap is_empty (sym here ∙ at_root) ∙ (h.named root r at).1,
        )
        | inr old ↦ h.named root' r' old
      ];
      leads = λ root' x r' n e found. elim (set-cases t.root_id root' _ r' s.trees e) [
        | inl (here, same) ↦
            let from =
              added-cases now id incoming status parent r.tree t x n added
                (ap (λ k. get_key x k.tree.nodes) same ∙ found) in
            elim from [
              | inl is_new ↦
                  subst (λ k. get_key k (set_key id t.root_id s.node_to_tree) ≡ some root') is_new
                    (registered id t.root_id s.node_to_tree ∙ ap some here)
              | inr (m, was) ↦
                  register-keeps id x root' t.root_id s.node_to_tree new
                    (h.leads root x r m at was ∙ ap some (sym at_root ∙ here))
            ]
        | inr old ↦
            register-keeps id x root' t.root_id s.node_to_tree new (h.leads root' x r' n old found)
      ];
    }
