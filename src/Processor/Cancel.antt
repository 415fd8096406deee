-- ===== src/Processor/Cancel.antt =====
-- The cancellation of a whole tree: what it leaves of the nodes, the queue and the processing state.
use mathlib.Core.Option
use mathlib.Core.Option.{some-injective}
use mathlib.Core.Path.{subst}
use claude_chakra.Prelude.{
  ℕ, ◌≡◌, refl, sym, ◌∙◌, ap, inl, inr, ◌⊎◌, true, false, not, Option, none, some, List, [], ◌∷◌,
  ◌++◌, map, any, All, All-append, All-map, Text, text_eq, text_eq_refl, text_eq_sound, is_empty,
  get_key, Bool-cases, Option-cases, arith,
}
use claude_chakra.Trees.Queue.{contains}
use claude_chakra.Trees.Node.{MessageState, MessageNode}
use claude_chakra.Trees.Tree.{
  update, is_done, failed_at, mark_first, drain, drain_queue_and_mark_cancelled,
}
use claude_chakra.Trees.Linked.{Nodes, get_key-update}
use claude_chakra.Processor.{
  Runtime, cancel_current, cancel_serial, cancel_found, find_task, cancelled_message, mark_found,
  mark_current, cancel_running, is_active, swept, sweep, cancel_tree,
}

-- Every node is stored under its own id.
abbrev pub IsKeyed : Nodes → Type 0
IsKeyed nodes = (x : Text) (n : MessageNode) → get_key x nodes ≡ some n → n.node_id ≡ x

-- The node under an id is over.
abbrev IsDown : Nodes → Text → Type 0
IsDown nodes x = (n : MessageNode) → get_key x nodes ≡ some n → is_done n.state ≡ true

module _ (now : ℕ) (message : Text) (id : Text) (nodes : Nodes) where
  -- What is found after one node has failed: that node, or what was there.
  failed-cases :
      (x : Text) (n : MessageNode)
      → get_key x (update id (failed_at now message) nodes) ≡ some n
      → ((m : MessageNode) × (get_key x nodes ≡ some m) × (n ≡ failed_at now message m))
        ⊎ ((get_key x nodes ≡ some n) × (text_eq id x ≡ false))
  failed-cases x n h = elim (Bool-cases (text_eq id x)) [
    | inl same ↦ elim (Option-cases (get_key x nodes)) [
      | inl missing ↦ absurd (
          let e : get_key x (update id (failed_at now message) nodes) ≡ none =
            get_key-update id x (failed_at now message) nodes ∙ rw same (rw missing refl) in
          let f = sym e ∙ h in cc)
      | inr (m, found) ↦ inl (
          let e : get_key x (update id (failed_at now message) nodes)
              ≡ some (failed_at now message m) =
            get_key-update id x (failed_at now message) nodes ∙ rw same (rw found refl) in
          (m, found, some-injective _ _ (sym h ∙ e)))
    ]
    | inr apart ↦ inr (
        let e : get_key x (update id (failed_at now message) nodes) ≡ get_key x nodes =
          get_key-update id x (failed_at now message) nodes ∙ rw apart refl in
        (sym e ∙ h, apart))
  ]

  update-IsKeyed : IsKeyed nodes → IsKeyed (update id (failed_at now message) nodes)
  update-IsKeyed keyed x n h = elim (failed-cases x n h) [
    | inl (m, found, e) ↦ ap (λ k. k.node_id) e ∙ keyed x m found
    | inr (found, _) ↦ keyed x n found
  ]

  update-IsDown : (x : Text) → IsDown nodes x → IsDown (update id (failed_at now message) nodes) x
  update-IsDown x down n h = elim (failed-cases x n h) [
    | inl (m, found, e) ↦ ap (λ k. is_done k.state) e
    | inr (found, _) ↦ down n found
  ]

  failed-IsDown : IsDown (update id (failed_at now message) nodes) id
  failed-IsDown n h = elim (failed-cases id n h) [
    | inl (m, found, e) ↦ ap (λ k. is_done k.state) e
    | inr (_, apart) ↦ absurd (let e = sym apart ∙ text_eq_refl id in cc)
  ]

  kept_elsewhere :
      (x : Text)
      → text_eq id x ≡ false
      → get_key x (update id (failed_at now message) nodes) ≡ get_key x nodes
  kept_elsewhere x apart = get_key-update id x (failed_at now message) nodes ∙ rw apart refl

-- What a part of the cancellation does: the nodes it reports are over, what was over still is.
record IsStopped (old : Nodes) (reported : List MessageNode) (new : Nodes) : Type 0 where
  keyed : IsKeyed new
  over : All (λ m. IsDown new m.node_id) reported
  still : (x : Text) → IsDown old x → IsDown new x

-- One more node is reported, if there is one.
mark_first-IsStopped :
    (now : ℕ) (message x : Text) (nodes new : Nodes) (marked : List MessageNode)
    (o : Option MessageNode)
    → get_key x nodes ≡ o
    → IsKeyed nodes
    → IsStopped (update x (failed_at now message) nodes) marked new
    → IsStopped nodes (mark_first now message o marked) new
unfolding mark_first
mark_first-IsStopped now message x nodes new marked none e keyed rest = record {
  keyed = rest.keyed;
  over = rest.over;
  still = λ y down. rest.still y (update-IsDown now message x nodes y down);
}
mark_first-IsStopped now message x nodes new marked (some n) e keyed rest = record {
  keyed = rest.keyed;
  over = (rw (keyed x n e) (rest.still x (failed-IsDown now message x nodes)), rest.over);
  still = λ y down. rest.still y (update-IsDown now message x nodes y down);
}

drain-IsStopped :
    (now : ℕ) (message : Text) (xs : List Text) (nodes : Nodes)
    → IsKeyed nodes
    → IsStopped nodes (drain now message xs nodes).0 (drain now message xs nodes).1
unfolding drain
drain-IsStopped now message [] nodes keyed = record {
  keyed = keyed;
  over = tt;
  still = λ x down. down;
}
drain-IsStopped now message (x ∷ xs) nodes keyed =
    let first = update x (failed_at now message) nodes in
    mark_first-IsStopped now message x nodes (drain now message xs first).1
      (drain now message xs first).0 (get_key x nodes) refl keyed
      (drain-IsStopped now message xs first (update-IsKeyed now message x nodes keyed))

pub cancel_current-tree : (r : Runtime) → (cancel_current r).1.tree ≡ r.tree
unfolding cancel_current cancel_serial cancel_found
cancel_current-tree r = elim (Option-cases r.current_task) [
  | inl nothing ↦ rw nothing refl
  | inr (s, some_task) ↦ rw some_task (elim (Option-cases (find_task s r.tasks)) [
    | inl over ↦ rw over refl
    | inr (k, found) ↦ rw found refl
  ])
]

untouched : (nodes : Nodes) → IsKeyed nodes → IsStopped nodes [] nodes
untouched nodes keyed = record { keyed = keyed; over = tt; still = λ x down. down }

mark_found-IsStopped :
    (now : ℕ) (id : Text) (r : Runtime)
    → IsKeyed r.tree.nodes
    → IsStopped r.tree.nodes
        (mark_found now id (get_key id r.tree.nodes) r).0
        (mark_found now id (get_key id r.tree.nodes) r).1.tree.nodes
unfolding mark_found
mark_found-IsStopped now id r keyed = elim (Option-cases (get_key id r.tree.nodes)) [
  | inl missing ↦ rw missing (untouched r.tree.nodes keyed)
  | inr (n, found) ↦ rw found (elim (Bool-cases (is_done n.state)) [
    | inl over ↦ rw over (untouched r.tree.nodes keyed)
    | inr live ↦ rw live (record {
      keyed = update-IsKeyed now cancelled_message id r.tree.nodes keyed;
      over = (rw (keyed id n found) (failed-IsDown now cancelled_message id r.tree.nodes), tt);
      still = update-IsDown now cancelled_message id r.tree.nodes;
    })
  ])
]

mark_current-IsStopped :
    (now : ℕ) (o : Option Text) (r : Runtime)
    → IsKeyed r.tree.nodes
    → IsStopped r.tree.nodes (mark_current now o r).0 (mark_current now o r).1.tree.nodes
unfolding mark_current
mark_current-IsStopped now none r keyed = untouched r.tree.nodes keyed
mark_current-IsStopped now (some id) r keyed = elim (Bool-cases (is_empty id)) [
  | inl nameless ↦ rw nameless (untouched r.tree.nodes keyed)
  | inr named ↦ rw named (mark_found-IsStopped now id r keyed)
]

cancel_running-IsStopped :
    (now : ℕ) (r : Runtime)
    → IsKeyed r.tree.nodes
    → IsStopped r.tree.nodes (cancel_running now r).0 (cancel_running now r).1.tree.nodes
unfolding cancel_running
cancel_running-IsStopped now r keyed =
    let r' = (cancel_current r).1 in
    let same = cancel_current-tree r in
    let keyed' : IsKeyed r'.tree.nodes = subst (λ t. IsKeyed t.nodes) (sym same) keyed in
    elim (Bool-cases (cancel_current r).0) [
      | inl stopped ↦ rw stopped (
          subst
            (λ t.
              IsStopped t.nodes (mark_current now r'.tree.current_node_id r').0
                (mark_current now r'.tree.current_node_id r').1.tree.nodes)
            same (mark_current-IsStopped now r'.tree.current_node_id r' keyed'))
      | inr not_there ↦
          rw not_there
            (subst (λ t. IsStopped t.nodes [] r'.tree.nodes) same (untouched r'.tree.nodes keyed'))
    ]

get_key-sweep :
    (now : ℕ) (ids : List Text) (x : Text) (nodes : Nodes)
    → get_key x (sweep now ids nodes) ≡ Option.map (swept now ids) (get_key x nodes)
unfolding sweep get_key
get_key-sweep now ids x [] = refl
get_key-sweep now ids x ((j, n) ∷ nodes) = elim (Bool-cases (text_eq j x)) [
  | inl same ↦ rw same refl
  | inr apart ↦ rw apart (get_key-sweep now ids x nodes)
]

-- An id that is among the reported ones is that of a node that is over.
reported-IsDown :
    (nodes : Nodes) (reported : List MessageNode) (x : Text)
    → All (λ m. IsDown nodes m.node_id) reported
    → contains x (map (λ n. n.node_id) reported) ≡ true
    → IsDown nodes x
unfolding contains any
reported-IsDown nodes [] x over h = absurd (ground arith)
reported-IsDown nodes (m ∷ ms) x over h = elim (Bool-cases (text_eq m.node_id x)) [
  | inl same ↦ subst (IsDown nodes) (text_eq_sound m.node_id x same) over.0
  | inr apart ↦ reported-IsDown nodes ms x over.1 (ground (arith, h))
]

active_or_done : (s : MessageState) → is_active s ≡ not (is_done s)
active_or_done MessageState.pending = refl
active_or_done MessageState.in_progress = refl
active_or_done MessageState.completed = refl
active_or_done MessageState.error = refl

-- What a node is after the last loop.
swept-done :
    (now : ℕ) (nodes : Nodes) (reported : List MessageNode) (x : Text) (n : MessageNode)
    → IsKeyed nodes
    → All (λ m. IsDown nodes m.node_id) reported
    → get_key x nodes ≡ some n
    → is_done (swept now (map (λ m. m.node_id) reported) n).state ≡ true
swept-done now nodes reported x n keyed over found =
    let ids = map (λ m. m.node_id) reported in
    elim (Bool-cases (is_done n.state)) [
      | inl done ↦ rw (active_or_done n.state) (rw done done)
      | inr live ↦ elim (Bool-cases (contains n.node_id ids)) [
        | inl listed ↦
            let down = reported-IsDown nodes reported n.node_id over listed in
            let here = down n (ap (λ k. get_key k nodes) (keyed x n found) ∙ found) in
            absurd (let e = sym here ∙ live in cc)
        | inr unlisted ↦ rw (active_or_done n.state) (rw live (rw unlisted refl))
      ]
    ]

map-some :
    (f : MessageNode → MessageNode) (o : Option MessageNode) (n : MessageNode)
    → Option.map f o ≡ some n
    → (m : MessageNode) × (o ≡ some m) × (n ≡ f m)
map-some f none n h = absurd cc
map-some f (some m) n h = (m, refl, sym (some-injective _ _ h))

-- After a tree was cancelled, nothing waits in it, it is not processing and has no current node, and
-- every node is completed or in error, if each was stored under its own id.
pub cancel_tree-done :
    (now : ℕ) (r : Runtime)
    → IsKeyed r.tree.nodes
    → let t = (cancel_tree now r).1.tree in
      (t.queue.deque ≡ [])
      × (t.is_processing ≡ false)
      × (t.current_node_id ≡ none)
      × ((x : Text) (n : MessageNode) → get_key x t.nodes ≡ some n → is_done n.state ≡ true)
unfolding cancel_tree drain_queue_and_mark_cancelled
cancel_tree-done now r keyed =
    let r' = (cancel_running now r).1 in
    let first = cancel_running-IsStopped now r keyed in
    let marked = (drain now cancelled_message r'.tree.queue.deque r'.tree.nodes).0 in
    let nodes = (drain now cancelled_message r'.tree.queue.deque r'.tree.nodes).1 in
    let drained =
      drain-IsStopped now cancelled_message r'.tree.queue.deque r'.tree.nodes first.keyed in
    let reported = (cancel_running now r).0 ++ marked in
    let over : All (λ m. IsDown nodes m.node_id) reported =
      All-append (λ m. IsDown nodes m.node_id) (cancel_running now r).0 marked
        (All-map (cancel_running now r).0 (λ m. drained.still m.node_id) first.over) drained.over in
    (
      refl,
      refl,
      refl,
      λ x n h.
          let (m, found, e) =
            map-some (swept now (map (λ k. k.node_id) reported)) (get_key x nodes) n
              (sym (get_key-sweep now (map (λ k. k.node_id) reported) x nodes) ∙ h) in
          rw e (swept-done now nodes reported x m drained.keyed over found),
    )
