-- ===== src/Manager/Index.antt =====
-- The index after any operations that grow it.
use mathlib.Core.Option
use mathlib.Core.Option.{some-injective}
use mathlib.Core.Path.{subst}
use claude_chakra.Prelude.{
  ℕ, ◌≡◌, refl, ◌∙◌, ap, inl, inr, false, Option, none, some, if◌then◌else◌, Text, is_empty,
  get_key, has_key, Bool-cases, Option-cases,
}
use claude_chakra.Trees.Node.{IncomingMessage, MessageNode}
use claude_chakra.Trees.Tree.{add_node}
use claude_chakra.Processor.{Runtime}
use claude_chakra.Manager.{
  Repository, new_repository, tree_of_root, get_tree_for_node, get_node, resolve_in,
  resolve_parent_node_id, register_node, create_tree, with_node, add_in, add_to_tree,
}
use claude_chakra.Manager.Registered.{
  IsRegistered, create_tree-IsRegistered, register_node-IsRegistered, with_node-IsRegistered,
}

tree_of_root-some :
    (o : Option Text) (s : Repository) (r : Runtime)
    → tree_of_root o s ≡ some r
    → (root : Text) × (get_key root s.trees ≡ some r)
unfolding tree_of_root
tree_of_root-some none s r e = absurd cc
tree_of_root-some (some root) s r e = elim (Bool-cases (is_empty root)) [
  | inl nameless ↦ absurd (let f = rw nameless at e in cc)
  | inr named ↦ (root, rw named at e)
]

add_to_tree-IsRegistered :
    (now : ℕ) (parent id : Text) (incoming : IncomingMessage) (status : Text) (s s' : Repository)
    → get_key id s.node_to_tree ≡ none
    → add_to_tree now parent id incoming status s ≡ some s'
    → IsRegistered s
    → IsRegistered s'
unfolding add_to_tree add_in with_node get_tree_for_node
add_to_tree-IsRegistered now parent id incoming status s s' new e h =
    elim (Bool-cases (has_key parent s.node_to_tree)) [
      | inr unknown ↦ absurd (let f = rw unknown at e in cc)
      | inl known ↦
          let e1 = rw known at e in
          elim (Option-cases (tree_of_root (get_key parent s.node_to_tree) s)) [
            | inl missing ↦ absurd (let f = rw missing at e1 in cc)
            | inr (r, found) ↦
                let e2 = rw found at e1 in
                let (root, at) = tree_of_root-some _ s r found in
                elim (Option-cases (add_node now id incoming status parent r.tree)) [
                  | inl refused ↦ absurd (let f = rw refused at e2 in cc)
                  | inr (t, added) ↦ subst IsRegistered (some-injective _ _ (rw added at e2)) (
                      with_node-IsRegistered now id incoming status parent root r t s new at added
                        h)
                ]
          ]
    ]

-- The trees and their nodes are made under ids that the index does not have, and other ids, such as
-- those of status messages, are registered under the same condition.
pub data Step (s : Repository) : Repository → Type 0 where
  creates :
      (now : ℕ) (id : Text) (incoming : IncomingMessage) (status : Text)
      → get_key id s.node_to_tree ≡ none
      → is_empty id ≡ false
      → Step s (create_tree now id incoming status s)
  adds :
      (now : ℕ) (parent id : Text) (incoming : IncomingMessage) (status : Text) (s' : Repository)
      → get_key id s.node_to_tree ≡ none
      → add_to_tree now parent id incoming status s ≡ some s'
      → Step s s'
  registers : (id root : Text) → get_key id s.node_to_tree ≡ none → Step s (register_node id root s)

pub data Reach : Repository → Type 0 where
  start : Reach new_repository
  next : (s s' : Repository) → Reach s → Step s s' → Reach s'

Reach-IsRegistered : (s : Repository) → Reach s → IsRegistered s
unfolding get_key
Reach-IsRegistered _ start = record {
  named = λ root r e. absurd cc;
  leads = λ root x r n e found. absurd cc;
}
Reach-IsRegistered _ (next s s' before (creates now id incoming status new filled)) =
    create_tree-IsRegistered now id incoming status s new filled (Reach-IsRegistered s before)
Reach-IsRegistered _ (next s s' before (adds now parent id incoming status s1 new e)) =
    add_to_tree-IsRegistered now parent id incoming status s s' new e (Reach-IsRegistered s before)
Reach-IsRegistered _ (next s s' before (registers id root new)) =
    register_node-IsRegistered id root s new (Reach-IsRegistered s before)

-- After any trees were made with a root of a non-empty id, and any nodes added, each under an id that
-- was not registered, every node of every tree is found by its id alone, and so is its tree, and as a parent it resolves to itself.
pub Reach-finds :
    (s : Repository) (root x : Text) (r : Runtime) (n : MessageNode)
    → Reach s
    → get_key root s.trees ≡ some r
    → get_key x r.tree.nodes ≡ some n
    → (get_tree_for_node x s ≡ some r)
      × (get_node x s ≡ some n)
      × (resolve_parent_node_id x s ≡ some x)
unfolding resolve_parent_node_id resolve_in has_key get_tree_for_node tree_of_root get_node
    Option.bind
Reach-finds s root x r n reached at found =
    let h = Reach-IsRegistered s reached in
    let finds : get_tree_for_node x s ≡ some r =
      ap (λ o. tree_of_root o s) (h.leads root x r n at found)
      ∙ (ap (λ b. if b then none else get_key root s.trees) (h.named root r at).1 ∙ at) in
    (
      finds,
      ap (λ o. Option.bind o (λ k. get_key x k.tree.nodes)) finds ∙ found,
      ap (resolve_in x) finds ∙ rw found refl,
    )
