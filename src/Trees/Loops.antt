-- ===== src/Trees/Loops.antt =====
-- The loops over the stack of `get_descendants` and `get_pending_children` end where the nodes have
-- ranks.
use mathlib.Core.Option
use mathlib.Core.Path.{subst}
use claude_chakra.Prelude.{
  ℕ, zero, suc, ◌+◌, ◌<◌, ◌≡◌, refl, sym, ◌∙◌, ap, inl, inr, Bool, true, some, List, [], ◌∷◌, ◌++◌,
  any, filter, Bool-cases, Text, text_eq, text_eq_refl, text_eq_sound, has_key, ◌↔◌, get_key,
  Option-cases, arith,
}
use claude_chakra.Trees.Queue.{contains}
use claude_chakra.Trees.Linked.{Nodes}
use claude_chakra.Trees.Branch.{
  pushed, children_at, pending_at, descend, collect_pending, get_descendants,
}
use claude_chakra.Trees.Ranked.{IsRanked}
use claude_chakra.Trees.Below.{Below, descend_sound, descend_complete}

-- A loop that pops a node and pushes others of higher rank ends from every stack, if it ends from the
-- empty one and each round leads on.
module _ (nodes : Nodes) (h : IsRanked nodes) (next : Text → List Text)
    (higher : (x c : Text) → contains c (next x) ≡ true → h.rank x < h.rank c)
    (Ends : List Text → Type 0)
    (round : (x : Text) (stack : List Text) → Ends (pushed (next x) stack) → Ends (x ∷ stack)) where
  pushed-Ends :
      (k : ℕ) (cs stack : List Text)
      → ((c : Text) (more : List Text) → h.bound < h.rank c + k → Ends more → Ends (c ∷ more))
      → ((c : Text) → contains c cs ≡ true → h.bound < h.rank c + k)
      → Ends stack
      → Ends (pushed cs stack)
  unfolding pushed contains any
  pushed-Ends k [] stack each low ends = ends
  pushed-Ends k (c ∷ cs) stack each low ends =
      pushed-Ends k cs (c ∷ stack) each (λ d there. low d (ground (arith, there)))
        (each c stack (low c (ground (arith, text_eq_refl c))) ends)

  round-Ends :
      (k : ℕ) (x : Text) (stack : List Text)
      → h.bound < h.rank x + k
      → Ends stack
      → Ends (x ∷ stack)
  round-Ends zero x stack low ends = absurd (omega (arith, h.bounded x, low))
  round-Ends (suc k) x stack low ends = round x stack (
      pushed-Ends k (next x) stack (λ c more low' ends'. round-Ends k c more low' ends')
        (λ c there. omega (arith, higher x c there, low)) ends)

  loop-Ends : (x : Text) → Ends [] → Ends (x ∷ [])
  loop-Ends x ends = round-Ends (h.bound + 1) x [] (omega arith) ends

contains-filter :
    (c : Text) (p : Text → Bool) (xs : List Text)
    → contains c (filter p xs) ≡ true
    → contains c xs ≡ true
unfolding contains any filter
contains-filter c p [] there = there
contains-filter c p (x ∷ xs) there = elim (Bool-cases (p x)) [
  | inl kept ↦ elim (Bool-cases (text_eq x c)) [
    | inl same ↦ rw same refl
    | inr apart ↦
        let e : filter p (x ∷ xs) ≡ x ∷ filter p xs = rw kept refl in
        let later : contains c (x ∷ filter p xs) ≡ true = sym (ap (contains c) e) ∙ there in
        rw apart (contains-filter c p xs (rw apart at later))
  ]
  | inr gone ↦
      let e : filter p (x ∷ xs) ≡ filter p xs = rw gone refl in
      ground (arith, contains-filter c p xs (sym (ap (contains c) e) ∙ there))
]

module _ (nodes : Nodes) (h : IsRanked nodes) where
  children-rise : (x c : Text) → contains c (children_at nodes x) ≡ true → h.rank x < h.rank c
  unfolding children_at contains any
  children-rise x c there = elim (Option-cases (get_key x nodes)) [
    | inl missing ↦ absurd (let f = rw missing at there in cc)
    | inr (n, found) ↦ h.rises x c n found (rw found at there)
  ]

  pub descend-ends :
      (id : Text) → (fuel : ℕ) × (r : List Text) × (descend nodes fuel (id ∷ []) ≡ some r)
  unfolding descend
  descend-ends id =
      loop-Ends nodes h (children_at nodes) children-rise
        (λ stack. (fuel : ℕ) × (r : List Text) × (descend nodes fuel stack ≡ some r))
        (λ x stack ends. (suc ends.0, x ∷ ends.1, ap (Option.map (λ t. x ∷ t)) ends.2)) id
        (0, [], refl)

  pub collect_pending-ends :
      (id : Text) → (fuel : ℕ) × (r : List Text) × (collect_pending nodes fuel (id ∷ []) ≡ some r)
  unfolding collect_pending pending_at
  collect_pending-ends id =
      loop-Ends nodes h (pending_at nodes)
        (λ x c there. children-rise x c (contains-filter c _ (children_at nodes x) there))
        (λ stack. (fuel : ℕ) × (r : List Text) × (collect_pending nodes fuel stack ≡ some r))
        (λ x stack ends. (
          suc ends.0,
          pending_at nodes x ++ ends.1,
          ap (Option.map (λ t. pending_at nodes x ++ t)) ends.2,
        ))
        id (0, [], refl)

-- What `get_descendants` lists when it ends.
pub descendants_exact :
    (nodes : Nodes) (fuel : ℕ) (id : Text) (r : List Text)
    → has_key id nodes ≡ true
    → get_descendants fuel id nodes ≡ some r
    → (x : Text) → (contains x r ≡ true) ↔ Below nodes id x
unfolding get_descendants contains any
descendants_exact nodes fuel id r there done =
    let ends : descend nodes fuel (id ∷ []) ≡ some r = rw there at done in
    λ x. (
      (λ listed.
          let (s, on_stack, below) = descend_sound nodes fuel (id ∷ []) r x ends listed in
          subst (λ k. Below nodes k x) (sym (only_one s on_stack)) below),
      (λ below.
          descend_complete nodes fuel (id ∷ []) r id x ends (ground (arith, text_eq_refl id))
            below),
    )
  where
    only_one : (s : Text) → contains s (id ∷ []) ≡ true → id ≡ s
    only_one s on_stack = text_eq_sound id s (ground arith)
