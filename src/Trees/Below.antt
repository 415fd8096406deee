-- ===== src/Trees/Below.antt =====
-- What stands below a node, and what the loop over the stack lists.
use mathlib.Core.Option
use mathlib.Core.Option.{some-injective}
use mathlib.Core.Path.{subst}
use claude_chakra.Prelude.{
  ℕ, zero, suc, ◌≡◌, refl, sym, ◌∙◌, ap, inl, inr, ◌⊎◌, true, ◌||◌, some, List, [], ◌∷◌, any, Text,
  text_eq, text_eq_refl, text_eq_sound, Bool-cases, Option-cases, arith,
}
use claude_chakra.Trees.Queue.{contains}
use claude_chakra.Trees.Linked.{Nodes}
use claude_chakra.Trees.Branch.{pushed, children_at, descend}

-- A node is below itself, and what is below one of its children is below it.
pub data Below (nodes : Nodes) : Text → Text → Type 0 where
  here : (x : Text) → Below nodes x x
  deeper :
      (x c y : Text) → contains c (children_at nodes x) ≡ true → Below nodes c y → Below nodes x y

pub Below-cases :
    (nodes : Nodes) (x y : Text)
    → Below nodes x y
    → (x ≡ y) ⊎ ((c : Text) × (contains c (children_at nodes x) ≡ true) × Below nodes c y)
Below-cases nodes _ _ (here x) = inl refl
Below-cases nodes _ _ (deeper x c y child below) = inr (c, child, below)

pub contains-pushed :
    (x : Text) (cs stack : List Text)
    → contains x (pushed cs stack) ≡ contains x cs || contains x stack
unfolding contains any pushed
contains-pushed x [] stack = refl
contains-pushed x (c ∷ cs) stack = contains-pushed x cs (c ∷ stack) ∙ ground (arith)

-- A loop that ends has had enough fuel for its first round.
pub descend-round :
    (nodes : Nodes) (fuel : ℕ) (nid : Text) (stack r : List Text)
    → descend nodes (suc fuel) (nid ∷ stack) ≡ some r
    → (r' : List Text) × (descend nodes fuel (pushed (children_at nodes nid) stack) ≡ some r')
      × (r ≡ nid ∷ r')
unfolding descend
descend-round nodes fuel nid stack r h =
    elim (Option-cases (descend nodes fuel (pushed (children_at nodes nid) stack))) [
      | inl out ↦ absurd (let f = sym (ap (Option.map (λ t. nid ∷ t)) out) ∙ h in cc)
      | inr (r', e) ↦ (r', e, some-injective _ _ (sym h ∙ ap (Option.map (λ t. nid ∷ t)) e))
    ]

abbrev BelowSome : Nodes → List Text → Text → Type 0
BelowSome nodes stack x = (s : Text) × (contains s stack ≡ true) × Below nodes s x

contains-cases :
    (x y : Text) (ys : List Text) → contains x (y ∷ ys) ≡ true → (y ≡ x) ⊎ (contains x ys ≡ true)
unfolding contains any
contains-cases x y ys h = elim (Bool-cases (text_eq y x)) [
  | inl same ↦ inl (text_eq_sound y x same)
  | inr apart ↦ inr (ground (arith, h))
]

contains-head : (x : Text) (ys : List Text) → contains x (x ∷ ys) ≡ true
unfolding contains any
contains-head x ys = ground (arith, text_eq_refl x)

contains-tail : (x y : Text) (ys : List Text) → contains x ys ≡ true → contains x (y ∷ ys) ≡ true
unfolding contains any
contains-tail x y ys h = ground (arith, h)

-- What is listed is below a node of the stack.
pub descend_sound :
    (nodes : Nodes) (fuel : ℕ) (stack r : List Text) (x : Text)
    → descend nodes fuel stack ≡ some r
    → contains x r ≡ true
    → BelowSome nodes stack x
unfolding descend contains any
descend_sound nodes fuel [] r x h listed =
    absurd (let f : contains x [] ≡ true = ap (contains x) (some-injective _ _ h) ∙ listed in cc)
descend_sound nodes zero (nid ∷ stack) r x h listed = absurd cc
descend_sound nodes (suc fuel) (nid ∷ stack) r x h listed =
    let (r', e, split) = descend-round nodes fuel nid stack r h in
    elim (contains-cases x nid r' (sym (ap (contains x) split) ∙ listed)) [
      | inl same ↦ (nid, contains-head nid stack, subst (Below nodes nid) same (here nid))
      | inr later ↦
          let (s, there, below) = descend_sound nodes fuel _ r' x e later in
          elim (Bool-cases (contains s (children_at nodes nid))) [
            | inl child ↦ (nid, contains-head nid stack, deeper nid s x child below)
            | inr other ↦ (
              s,
              contains-tail s nid stack
                  (ground (arith, contains-pushed s (children_at nodes nid) stack, there, other)),
              below,
            )
          ]
    ]

-- What is below a node of the stack is listed.
pub descend_complete :
    (nodes : Nodes) (fuel : ℕ) (stack r : List Text) (s x : Text)
    → descend nodes fuel stack ≡ some r
    → contains s stack ≡ true
    → Below nodes s x
    → contains x r ≡ true
unfolding descend contains any
descend_complete nodes fuel [] r s x h there below = absurd cc
descend_complete nodes zero (nid ∷ stack) r s x h there below = absurd cc
descend_complete nodes (suc fuel) (nid ∷ stack) r s x h there below =
    let (r', e, split) = descend-round nodes fuel nid stack r h in
    let listed : contains x (nid ∷ r') ≡ true = elim (contains-cases s nid stack there) [
      | inr rest ↦ contains-tail x nid r' (
          descend_complete nodes fuel _ r' s x e
            (contains-pushed s (children_at nodes nid) stack ∙ ground (arith, rest)) below)
      | inl same ↦ elim (Below-cases nodes s x below) [
        | inl self ↦ subst (λ k. contains k (nid ∷ r') ≡ true) (same ∙ self) (contains-head nid r')
        | inr (c, child, under) ↦ contains-tail x nid r' (
            descend_complete nodes fuel _ r' c x e
              (contains-pushed c (children_at nodes nid) stack
                ∙ ground (arith, ap (λ k. contains c (children_at nodes k)) same, child))
              under)
      ]
    ] in
    ap (contains x) split ∙ listed
