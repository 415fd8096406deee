-- ===== src/Trees/Restore.antt =====
-- A tree is read back from its dictionary, with every node under its id.
use mathlib.Core.Option
use mathlib.Core.Option.{some-injective}
use claude_chakra.Prelude.{
  ℕ, ◌≡◌, refl, sym, ◌∙◌, ap, inl, inr, false, Option, none, some, List, [], ◌∷◌, if◌then◌else◌,
  Text, text_eq, text_eq_sound, text_eq_other, is_empty, get_key, set_key, get_key-set_key,
  Bool-cases, arith,
}
use claude_chakra.Trees.Node.{MessageNode}
use claude_chakra.Trees.Tree.{MessageTree, new_tree}
use claude_chakra.Trees.Form.{obj, lookup, as_fields, as_text, text_at, to_dict}
use claude_chakra.Trees.RoundTrip.{restored, from_dict-to_dict}
use claude_chakra.Trees.Store.{
  add_node_from_dict, write_nodes, tree_to_dict, read_node, load, tree_from_dict,
}

-- Each node stands under its id, and no id stands twice.
unfoldable pub IsKeyed : List (Text × MessageNode) → Type 0
IsKeyed [] = Unit
IsKeyed ((id, n) ∷ rest) = (n.node_id ≡ id) × (get_key id rest ≡ none) × IsKeyed rest

abbrev or_else : Option MessageNode → Option MessageNode → Option MessageNode
or_else (some n) d = some n
or_else none d = d

or_else-none : (o : Option MessageNode) → or_else o none ≡ o
or_else-none none = refl
or_else-none (some n) = refl

-- What is under an id once the root and the others are loaded.
whole :
    (read_at : Text → ℕ) (x : Text) (t : MessageTree) (r : MessageNode)
    → get_key t.root_id t.nodes ≡ some r
    → r.node_id ≡ t.root_id
    → (if text_eq t.root_id x
        then get_key x (new_tree (restored (read_at t.root_id) r)).nodes
        else or_else
            (Option.map (restored (read_at x)) (get_key x t.nodes))
            (get_key x (new_tree (restored (read_at t.root_id) r)).nodes))
      ≡ Option.map (restored (read_at x)) (get_key x t.nodes)
unfolding get_key
whole read_at x t r there named =
    let same = ap (λ k. text_eq k x) named in
    elim (Bool-cases (text_eq t.root_id x)) [
      | inl here ↦
          let root = ap (λ k. get_key k t.nodes) (sym (text_eq_sound t.root_id x here)) ∙ there in
          let moment = ap read_at (text_eq_sound t.root_id x here) in
          rw here (rw (same ∙ here) (rw root (ap (λ k. some (restored k r)) moment)))
      | inr other ↦
          rw other (
            rw (same ∙ other)
              (or_else-none (Option.map (restored (read_at x)) (get_key x t.nodes))))
    ]

module _ (isoformat : ℕ → Text) (fromisoformat : Text → Option ℕ)
    (reads : (t : ℕ) → fromisoformat (isoformat t) ≡ some t)
    (full : (t : ℕ) → is_empty (isoformat t) ≡ false) (read_at : Text → ℕ) where
  read_node-write :
      (id : Text) (n : MessageNode)
      → read_node isoformat fromisoformat read_at id (obj (to_dict isoformat fromisoformat n))
        ≡ some (restored (read_at id) n)
  unfolding read_node as_fields Option.bind
  read_node-write id n = from_dict-to_dict isoformat fromisoformat (read_at id) n reads full

  -- What a load leaves under every id.
  record HasLoaded (root_id : Text) (ns : List (Text × MessageNode)) (t : MessageTree)
      : Type 0 where
    tree : MessageTree
    result :
        load isoformat fromisoformat read_at root_id
          (write_nodes isoformat fromisoformat read_at ns)
          t
        ≡ some tree
    at :
        (x : Text)
        → get_key x tree.nodes ≡ (
            if text_eq root_id x
            then get_key x t.nodes
            else or_else (Option.map (restored (read_at x)) (get_key x ns)) (get_key x t.nodes))
    root : tree.root_id ≡ t.root_id

  load-HasLoaded :
      (root_id : Text) (ns : List (Text × MessageNode)) (t : MessageTree)
      → IsKeyed ns
      → HasLoaded root_id ns t
  unfolding load write_nodes IsKeyed get_key Option.bind
  load-HasLoaded root_id [] t h = record {
    tree = t;
    result = refl;
    at = λ x. ground arith;
    root = refl;
  }
  load-HasLoaded root_id ((id, n) ∷ ns) t h = elim (Bool-cases (text_eq id root_id)) [
    | inl same ↦
        let l = load-HasLoaded root_id ns t h.2 in
        record {
          tree = l.tree;
          result = rw same l.result;
          at = λ x. l.at x ∙ elim (Bool-cases (text_eq root_id x)) [
            | inl here ↦ rw here refl
            | inr there ↦
                let other = ap (λ k. text_eq k x) (text_eq_sound id root_id same) ∙ there in
                rw there (rw other refl)
          ];
          root = l.root;
        }
    | inr apart ↦
        let l = load-HasLoaded root_id ns (add_node_from_dict (restored (read_at id) n) t) h.2 in
        record {
          tree = l.tree;
          result = rw apart (rw (read_node-write id n) l.result);
          at = λ x.
              let set : get_key x (set_key n.node_id (restored (read_at id) n) t.nodes)
                  ≡ (if text_eq id x then some (restored (read_at id) n) else get_key x t.nodes) =
                get_key-set_key n.node_id x (restored (read_at id) n) t.nodes
                ∙ ap
                    (λ k. if text_eq k x then some (restored (read_at id) n) else get_key x t.nodes)
                    h.0 in
              l.at x
              ∙ rw set (elim (Bool-cases (text_eq id x)) [
                | inl here ↦
                    let other = text_eq_other id root_id x apart here in
                    let gone = ap (λ k. get_key k ns) (sym (text_eq_sound id x here)) ∙ h.1 in
                    let moment = ap read_at (text_eq_sound id x here) in
                    rw other (rw here (rw gone (ap (λ k. some (restored k n)) moment)))
                | inr there ↦ rw there refl
              ]);
          root = l.root;
        }
  ]

  lookup-write :
      (x : Text) (ns : List (Text × MessageNode)) (n : MessageNode)
      → get_key x ns ≡ some n
      → lookup x (write_nodes isoformat fromisoformat read_at ns)
        ≡ some (obj (to_dict isoformat fromisoformat n))
  unfolding lookup write_nodes get_key
  lookup-write x [] n h = cc
  lookup-write x ((id, m) ∷ ns) n h = elim (Bool-cases (text_eq id x)) [
    | inl here ↦ rw here (
        ap (λ a. some (obj (to_dict isoformat fromisoformat a)))
          (some-injective _ _ (rw here refl ∙ h)))
    | inr there ↦ rw there (lookup-write x ns n (rw there refl ∙ h))
  ]

  -- A tree whose root is there, and in which every node stands once and under its own id, is read
  -- back from its dictionary with the same ids and, under each id, the node as it is restored: all
  -- but its context, and the status message, the timestamp and the raw event of its message. This
  -- holds where `fromisoformat` reads what `isoformat` writes, and that is never empty.
  pub tree_from_dict-to_dict :
      (t : MessageTree) (r : MessageNode)
      → IsKeyed t.nodes
      → get_key t.root_id t.nodes ≡ some r
      → r.node_id ≡ t.root_id
      → (t' : MessageTree) × (tree_from_dict isoformat fromisoformat read_at
            (tree_to_dict isoformat fromisoformat read_at t)
          ≡ some t')
        × (t'.root_id ≡ t.root_id)
        × ((x : Text) → get_key x t'.nodes ≡ Option.map (restored (read_at x)) (get_key x t.nodes))
  unfolding tree_from_dict tree_to_dict text_at lookup as_text as_fields text_eq Option.bind
  tree_from_dict-to_dict t r keyed there named =
      let l = load-HasLoaded t.root_id t.nodes (new_tree (restored (read_at t.root_id) r)) keyed in
      (
        l.tree,
        rw (lookup-write t.root_id t.nodes r there) (rw (read_node-write t.root_id r) l.result),
        l.root ∙ named,
        λ x. l.at x ∙ whole read_at x t r there named,
      )
