-- ===== src/Processor/Changes.antt =====
-- One node at a time: what each operation leaves of the tree and its only task.
use mathlib.Core.Option.{some-injective}
use mathlib.Core.Path.{subst}
use claude_chakra.Prelude.{
  ℕ, ◌≡◌, refl, sym, ◌∙◌, ap, inl, inr, Bool, true, false, Option, none, some, List, [], ◌∷◌,
  filter, All, Text, text_eq, has_key, set_key, get_key-set_key, Bool-cases, Option-cases,
}
use claude_chakra.Trees.Queue.{contains, discard, remove_if_present}
use claude_chakra.Trees.Node.{MessageState, MessageNode, IncomingMessage, new_node}
use claude_chakra.Trees.Tree.{
  MessageTree, get_node, add_node, with_state, failed_at, is_done, is_current_node, update,
  update_state, remove_from_queue,
}
use claude_chakra.Trees.Linked.{Nodes}
use claude_chakra.Trees.Growth.{with_child}
use claude_chakra.Processor.{
  Task, Runtime, find_task, drop_task, begin, mark_begun, record_failure, cancelled_message,
  is_error, cancel_node, cancel_found_node, cancel_current, cancel_serial, cancel_found,
  mark_cancelled,
}
use claude_chakra.Processor.Exclusive.{
  IsExclusive, IsKnown, drop_only, known_after, process_next-IsExclusive, self_eq, sole,
}

-- A task that begins runs, or, on a node in the state ERROR, hands on to the next.
pub mark_only :
    (k : Task) (tasks : List Task)
    → tasks ≡ k ∷ []
    → mark_begun k.serial tasks ≡ record k { begun = true } ∷ []
unfolding mark_begun
mark_only k tasks e = rw e (rw (self_eq k.serial) refl)

-- A busy tree stays as it is when its only task changes.
pub retask :
    (k : Task) (l : Task) (tasks : List Task) (r : Runtime)
    → r.tasks ≡ k ∷ []
    → tasks ≡ l ∷ []
    → l.serial ≡ k.serial
    → IsExclusive r
    → IsExclusive (record r { tasks = tasks })
retask k l tasks r one one' same h = record {
  idle = λ off. absurd (let e = sym (h.idle off).0 ∙ one in cc);
  busy = λ on.
      let (k', e, current) = h.busy on in
      let f = sym e ∙ one in
      let g : k'.serial ≡ k.serial = cc in (l, one', current ∙ ap some (g ∙ sym same));
  waiting = h.waiting;
}

pub begin-IsExclusive :
    (k : Task) (r : Runtime)
    → find_task k.serial r.tasks ≡ some k
    → IsExclusive r
    → IsExclusive (begin k r)
unfolding begin
begin-IsExclusive k r found h =
    let one = sole r k h found in
    elim (Bool-cases (is_error (get_node k.node_id r.tree))) [
      | inl failed ↦ rw failed (
          process_next-IsExclusive (record r { tasks = drop_task k.serial r.tasks })
            (drop_only k r.tasks one) h.waiting)
      | inr runs ↦ rw runs (
          retask k (record k { begun = true }) (mark_begun k.serial r.tasks) r one
            (mark_only k r.tasks one) refl h)
    ]

-- A change of one node, whatever it is.
pub update-IsExclusive :
    (x : Text) (f : MessageNode → MessageNode) (r : Runtime)
    → IsExclusive r
    → IsExclusive (record r { tree = record r.tree { nodes = update x f r.tree.nodes } })
update-IsExclusive x f r h = record {
  idle = h.idle;
  busy = h.busy;
  waiting = known_after x f r.tree.nodes r.tree.queue.deque h.waiting;
}

pub record_failure-IsExclusive :
    (now : ℕ) (x : Text) (failure : Option Text) (r : Runtime)
    → IsExclusive r
    → IsExclusive (record r { tree = record_failure now x failure r.tree })
unfolding record_failure update_state
record_failure-IsExclusive now x none r h = h
record_failure-IsExclusive now x (some message) r h =
    update-IsExclusive x (with_state now MessageState.error none (some message)) r h

pub All-filter :
    {A : Type 0} (P : A → Type 0) (p : A → Bool) (xs : List A) → All P xs → All P (filter p xs)
unfolding filter
All-filter P p [] h = tt
All-filter P p (x ∷ xs) h = elim (Bool-cases (p x)) [
  | inl kept ↦ rw kept (h.0, All-filter P p xs h.1)
  | inr gone ↦ rw gone (All-filter P p xs h.1)
]

pub filter_nil : {A : Type 0} (p : A → Bool) (xs : List A) → xs ≡ [] → filter p xs ≡ []
unfolding filter
filter_nil p xs e = rw e refl

pub remove-IsExclusive :
    (x : Text) (r : Runtime)
    → IsExclusive r
    → IsExclusive (record r { tree = (remove_from_queue x r.tree).1 })
unfolding remove_from_queue remove_if_present discard
remove-IsExclusive x r h = elim (Bool-cases (contains x r.tree.queue.set)) [
  | inl there ↦ rw there (record {
    idle = λ off. ((h.idle off).0, filter_nil _ _ (h.idle off).1);
    busy = h.busy;
    waiting = All-filter (IsKnown r.tree.nodes) _ r.tree.queue.deque h.waiting;
  })
  | inr missing ↦ rw missing h
]

pub cancel_current-found :
    (s : ℕ) (k : Task) (r : Runtime)
    → r.current_task ≡ some s
    → find_task s r.tasks ≡ some k
    → cancel_current r ≡ (true, record r { tasks = mark_cancelled k.serial r.tasks })
unfolding cancel_current cancel_serial cancel_found
cancel_current-found s k r current found =
    ap (λ o. cancel_serial o r) current ∙ ap (λ o. cancel_found o r) found

pub find_only : (k : Task) (tasks : List Task) → tasks ≡ k ∷ [] → find_task k.serial tasks ≡ some k
unfolding find_task
find_only k tasks e = rw e (rw (self_eq k.serial) refl)

pub cancel_only :
    (k : Task) (tasks : List Task)
    → tasks ≡ k ∷ []
    → mark_cancelled k.serial tasks ≡ record k { cancelled = true } ∷ []
unfolding mark_cancelled
cancel_only k tasks e = rw e (rw (self_eq k.serial) refl)

pub cancel_current-idle : (r : Runtime) → r.tasks ≡ [] → cancel_current r ≡ (false, r)
unfolding cancel_current cancel_serial cancel_found find_task
cancel_current-idle r e = elim (Option-cases r.current_task) [
  | inl nothing ↦ ap (λ o. cancel_serial o r) nothing
  | inr (s, current) ↦
      ap (λ o. cancel_serial o r) current ∙ ap (λ ks. cancel_found (find_task s ks) r) e
]

-- Cancelling the current task leaves it in the tree: it ends by itself.
pub cancel_current-IsExclusive : (r : Runtime) → IsExclusive r → IsExclusive (cancel_current r).1
cancel_current-IsExclusive r h = elim (Bool-cases r.tree.is_processing) [
  | inl on ↦
      let (k, one, current) = h.busy on in
      rw (cancel_current-found k.serial k r current (find_only k r.tasks one)) (
        retask k (record k { cancelled = true }) (mark_cancelled k.serial r.tasks) r one
          (cancel_only k r.tasks one) refl h)
  | inr off ↦ rw (cancel_current-idle r (h.idle off).0) h
]

pub cancel_node-IsExclusive :
    (now : ℕ) (x : Text) (r : Runtime) → IsExclusive r → IsExclusive (cancel_node now x r).1
unfolding cancel_node cancel_found_node
cancel_node-IsExclusive now x r h = elim (Option-cases (get_node x r.tree)) [
  | inl missing ↦ rw missing h
  | inr (n, found) ↦ rw found (elim (Bool-cases (is_done n.state)) [
    | inl over ↦ rw over h
    | inr live ↦ rw live (elim (Bool-cases (is_current_node x r.tree)) [
      | inl here ↦ rw here (
          update-IsExclusive x (failed_at now cancelled_message) _
            (remove-IsExclusive x _ (cancel_current-IsExclusive r h)))
      | inr there ↦
          rw there
            (update-IsExclusive x (failed_at now cancelled_message) _ (remove-IsExclusive x r h))
    ])
  ])
]

pub has_key-set_key :
    (id x : Text) (n : MessageNode) (nodes : Nodes)
    → has_key x nodes ≡ true
    → has_key x (set_key id n nodes) ≡ true
unfolding has_key
has_key-set_key id x n nodes h =
    rw (get_key-set_key id x n nodes)
      (elim (Bool-cases (text_eq id x)) [ inl same ↦ rw same refl | inr apart ↦ rw apart h ])

pub known_with :
    (id : Text) (n : MessageNode) (nodes : Nodes) (xs : List Text)
    → All (IsKnown nodes) xs
    → All (IsKnown (set_key id n nodes)) xs
known_with id n nodes [] h = tt
known_with id n nodes (x ∷ xs) h =
    ((has_key-set_key id x n nodes h.0.0, h.0.1), known_with id n nodes xs h.1)

-- A node is added, and the nodes that were known stay so.
pub add_node-IsExclusive :
    (now : ℕ) (x : Text) (incoming : IncomingMessage) (status parent : Text) (r : Runtime)
    (t : MessageTree)
    → add_node now x incoming status parent r.tree ≡ some t
    → IsExclusive r
    → IsExclusive (record r { tree = t })
unfolding add_node
add_node-IsExclusive now x incoming status parent r t e h =
    let leaf = new_node now x incoming status (some parent) in
    elim (Bool-cases (has_key parent r.tree.nodes)) [
      | inl there ↦
          let grown = record r {
            tree = record r.tree {
              nodes = set_key x leaf r.tree.nodes;
              status_to_node = set_key status x r.tree.status_to_node;
            };
          } in
          let wide : IsExclusive grown = record {
            idle = h.idle;
            busy = h.busy;
            waiting = known_with x leaf r.tree.nodes r.tree.queue.deque h.waiting;
          } in
          let linked = with_child x in
          let full = update-IsExclusive parent linked grown wide in
          let same : add_node now x incoming status parent r.tree
              ≡ some (record grown.tree { nodes = update parent linked grown.tree.nodes }) =
            rw there refl in
          subst (λ u. IsExclusive (record r { tree = u })) (some-injective _ _ (sym same ∙ e)) full
      | inr missing ↦ absurd (
          let refused : add_node now x incoming status parent r.tree ≡ none = rw missing refl in
          let f = sym refused ∙ e in cc)
    ]
