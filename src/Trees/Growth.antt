-- ===== src/Trees/Growth.antt =====
-- What the dictionaries hold after a node with a new id and a new status message is added.
use mathlib.Core.Option
use mathlib.Core.Option.{some-injective}
use mathlib.Core.Path.{subst}
use claude_chakra.Prelude.{
  ℕ, ◌≡◌, refl, sym, ◌∙◌, ap, inl, inr, ◌⊎◌, true, false, none, some, List, [], ◌∷◌, ◌++◌, any,
  if◌then◌else◌, Text, text_eq, text_eq_sound, text_eq_refl, arith, Bool-cases, get_key, set_key,
  get_key-set_key,
}
use claude_chakra.Trees.Queue.{contains}
use claude_chakra.Trees.Indexed.{contains-append}
use claude_chakra.Trees.Node.{IncomingMessage, MessageNode, new_node}
use claude_chakra.Trees.Tree.{update}
use claude_chakra.Trees.Linked.{Nodes, IsPlaced, get_key-update}

abbrev pub with_child : Text → MessageNode → MessageNode
with_child c n = record n { children_ids = n.children_ids ++ c ∷ [] }

contains_last : (c : Text) (cs : List Text) → contains c (cs ++ c ∷ []) ≡ true
unfolding contains any
contains_last c cs = contains-append c cs (c ∷ []) ∙ ground (arith, text_eq_refl c)

pub contains_added :
    (c x : Text) (cs : List Text)
    → contains c (cs ++ x ∷ []) ≡ true
    → (contains c cs ≡ true) ⊎ (c ≡ x)
unfolding contains any
contains_added c x cs h = elim (Bool-cases (text_eq x c)) [
  | inl same ↦ inr (sym (text_eq_sound x c same))
  | inr differs ↦ inl (ground (arith, contains-append c cs (x ∷ [])))
]

pub contains_none : (c : Text) → contains c [] ≡ false
unfolding contains any
contains_none c = refl

module _ (now : ℕ) (id : Text) (incoming : IncomingMessage) (status parent : Text) (p : MessageNode)
    (nodes : Nodes) (statuses : List (Text × Text)) where
  abbrev pub leaf : MessageNode
  leaf = new_node now id incoming status (some parent)

  abbrev pub grown : Nodes
  grown = update parent (with_child id) (set_key id leaf nodes)

  abbrev pub indexed_too : List (Text × Text)
  indexed_too = set_key status id statuses

  pub grown_at :
      (x : Text)
      → get_key x grown ≡ (
          if text_eq parent x
          then Option.map (with_child id) (if text_eq id x then some leaf else get_key x nodes)
          else if text_eq id x
          then some leaf
          else get_key x nodes)
  grown_at x =
      get_key-update parent x (with_child id) (set_key id leaf nodes)
      ∙ rw (get_key-set_key id x leaf nodes) refl

  -- What is known before: the parent is there, the id and the status message are new.
  pub record IsFresh : Type 0 where
    pub found : get_key parent nodes ≡ some p
    pub new_id : get_key id nodes ≡ none
    pub new_status : get_key status statuses ≡ none
    pub placed :
        (x : Text) (n : MessageNode) → get_key x nodes ≡ some n → IsPlaced nodes statuses x n

  module _ (h : IsFresh) where
    apart : text_eq parent id ≡ false
    apart = elim (Bool-cases (text_eq parent id)) [
      | inl same ↦ absurd (
          let e =
            sym h.found ∙ (ap (λ k. get_key k nodes) (text_eq_sound parent id same) ∙ h.new_id) in
          cc)
      | inr differs ↦ differs
    ]

    leaf_there : get_key id grown ≡ some leaf
    leaf_there = grown_at id ∙ rw apart (rw (text_eq_refl id) refl)

    pub other_way : text_eq id parent ≡ false
    other_way = elim (Bool-cases (text_eq id parent)) [
      | inl same ↦ absurd (
          let e =
            sym h.found
            ∙ (ap (λ k. get_key k nodes) (sym (text_eq_sound id parent same)) ∙ h.new_id) in
          cc)
      | inr differs ↦ differs
    ]

    parent_there : get_key parent grown ≡ some (with_child id p)
    parent_there = grown_at parent ∙ rw (text_eq_refl parent) (rw other_way (rw h.found refl))

    -- A node that was there still is, with the same parent and at least its children.
    pub kept :
        (x : Text) (m : MessageNode)
        → get_key x nodes ≡ some m
        → (n : MessageNode) × (get_key x grown ≡ some n)
          × (n.parent_id ≡ m.parent_id)
          × ((c : Text) → contains c m.children_ids ≡ true → contains c n.children_ids ≡ true)
    kept x m e = elim (Bool-cases (text_eq id x)) [
      | inl same ↦ absurd (
          let f = sym e ∙ (ap (λ k. get_key k nodes) (sym (text_eq_sound id x same)) ∙ h.new_id) in
          cc)
      | inr old ↦ elim (Bool-cases (text_eq parent x)) [
        | inl here ↦ (
          with_child id m,
          grown_at x ∙ rw here (rw old (rw e refl)),
          refl,
          λ c was. contains-append c m.children_ids (id ∷ []) ∙ rw was refl,
        )
        | inr there ↦ (m, grown_at x ∙ rw there (rw old e), refl, λ c was. was)
      ]
    ]

    status_kept : (s x : Text) → get_key s statuses ≡ some x → get_key s indexed_too ≡ some x
    status_kept s x e =
        get_key-set_key status s id statuses ∙ elim (Bool-cases (text_eq status s)) [
          | inl same ↦ absurd (
              let f =
                sym e
                ∙ (ap (λ k. get_key k statuses) (sym (text_eq_sound status s same))
                    ∙ h.new_status) in
              cc)
          | inr differs ↦ rw differs e
        ]

    leaf-IsPlaced : IsPlaced grown indexed_too id leaf
    leaf-IsPlaced = record {
      keyed = refl;
      up = λ q at. (
        with_child id p,
        ap (λ k. get_key k grown) (sym (some-injective _ _ at)) ∙ parent_there,
        contains_last id p.children_ids,
      );
      down = λ c at. absurd (let e = sym at ∙ contains_none c in cc);
      indexed = get_key-set_key status status id statuses ∙ rw (text_eq_refl status) refl;
    }

    -- An old node is placed still; its children are the old ones, or the new one under the parent.
    old-IsPlaced :
        (x : Text) (m n : MessageNode)
        → get_key x nodes ≡ some m
        → n.node_id ≡ m.node_id
        → n.parent_id ≡ m.parent_id
        → n.status_message_id ≡ m.status_message_id
        → ((c : Text)
            → contains c n.children_ids ≡ true
            → (contains c m.children_ids ≡ true) ⊎ ((c ≡ id) × (parent ≡ x)))
        → IsPlaced grown indexed_too x n
    old-IsPlaced x m n e same_id same_parent same_status children =
        let place = h.placed x m e in
        record {
          keyed = same_id ∙ place.keyed;
          up = λ q at.
              let (a, found, child) = place.up q (sym same_parent ∙ at) in
              let (b, there, _, more) = kept q a found in (b, there, more x child);
          down = λ c at. elim (children c at) [
            | inl was ↦
                let (a, found, up) = place.down c was in
                let (b, there, same, _) = kept c a found in (b, there, same ∙ up)
            | inr (new, here) ↦ (leaf, ap (λ k. get_key k grown) new ∙ leaf_there, ap some here)
          ];
          indexed = ap (λ s. get_key s indexed_too) same_status ∙ status_kept _ x place.indexed;
        }

    pub all-IsPlaced :
        (x : Text) (n : MessageNode) → get_key x grown ≡ some n → IsPlaced grown indexed_too x n
    all-IsPlaced x n e = elim (Bool-cases (text_eq id x)) [
      | inl same ↦
          let k = text_eq_sound id x same in
          let is_leaf = some-injective _ _ (sym leaf_there ∙ (ap (λ y. get_key y grown) k ∙ e)) in
          subst (λ y. IsPlaced grown indexed_too y n) k
            (subst (IsPlaced grown indexed_too id) is_leaf leaf-IsPlaced)
      | inr old ↦ elim (Bool-cases (text_eq parent x)) [
        | inl here ↦
            let k = text_eq_sound parent x here in
            let is_parent =
              some-injective _ _ (sym parent_there ∙ (ap (λ y. get_key y grown) k ∙ e)) in
            subst (λ y. IsPlaced grown indexed_too y n) k
              (subst (IsPlaced grown indexed_too parent) is_parent (
                old-IsPlaced parent p (with_child id p) h.found refl refl refl (λ c at.
                  elim (contains_added c id p.children_ids at) [
                    | inl was ↦ inl was
                    | inr new ↦ inr (new, refl)
                  ])))
        | inr there ↦
            let was : get_key x nodes ≡ some n =
              (rw there (rw old refl)) ∙ (sym (grown_at x) ∙ e) in
            old-IsPlaced x n n was refl refl refl (λ c at. inl at)
      ]
    ]
