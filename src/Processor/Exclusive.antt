-- ===== src/Processor/Exclusive.antt =====
-- One node at a time: what holds of a tree and its tasks while nothing cancels the whole tree and no
-- task is cancelled before it begins.
use mathlib.Core.Option
use mathlib.Core.Option.{some-injective}
use mathlib.Core.Path.{subst}
use claude_chakra.Prelude.{
  ℕ, ◌≡◌, refl, sym, ◌∙◌, ap, inl, inr, ◌⊎◌, true, false, Option, none, some, List, [], ◌∷◌, ◌==◌,
  filter, All, All-append, Text, text_eq, is_empty, get_key, has_key, is_some, arith, Bool-cases,
  Option-cases,
}
use claude_chakra.Trees.Queue.{SnapshotQueue, discard, get_nowait, popped}
use claude_chakra.Trees.Node.{MessageNode}
use claude_chakra.Trees.Tree.{MessageTree, update, dequeue, dequeued}
use claude_chakra.Trees.Linked.{Nodes, get_key-update}
use claude_chakra.Processor.{
  Task, Runtime, find_task, drop_task, create_for, start_node, next_after, process_next,
  enqueue_and_start, end_task,
}

-- The tree has the node, and its id is not empty.
abbrev pub IsKnown : Nodes → Text → Type 0
IsKnown nodes x = (has_key x nodes ≡ true) × (is_empty x ≡ false)

-- The tree is processing exactly when it has a task, it has one at most, and only then does
-- anything wait.
pub record IsExclusive (r : Runtime) : Type 0 where
  pub idle : r.tree.is_processing ≡ false → (r.tasks ≡ []) × (r.tree.queue.deque ≡ [])
  pub busy :
      r.tree.is_processing ≡ true
      → (k : Task) × (r.tasks ≡ k ∷ []) × (r.current_task ≡ some k.serial)
  pub waiting : All (IsKnown r.tree.nodes) r.tree.queue.deque

pub has_key-update :
    (id x : Text) (f : MessageNode → MessageNode) (nodes : Nodes)
    → has_key x (update id f nodes) ≡ has_key x nodes
unfolding has_key
has_key-update id x f nodes = rw (get_key-update id x f nodes) (elim (Bool-cases (text_eq id x)) [
  | inl same ↦ rw same (kept (get_key x nodes))
  | inr apart ↦ rw apart refl
])
  where
    kept : (o : Option MessageNode) → is_some (Option.map f o) ≡ is_some o
    kept none = refl
    kept (some n) = refl

pub known_after :
    (id : Text) (f : MessageNode → MessageNode) (nodes : Nodes) (xs : List Text)
    → All (IsKnown nodes) xs
    → All (IsKnown (update id f nodes)) xs
known_after id f nodes [] h = tt
known_after id f nodes (x ∷ xs) h =
    ((has_key-update id x f nodes ∙ h.0.0, h.0.1), known_after id f nodes xs h.1)

pub node_of_known :
    (x : Text) (nodes : Nodes)
    → has_key x nodes ≡ true
    → (n : MessageNode) × (get_key x nodes ≡ some n)
unfolding has_key
node_of_known x nodes h = elim (Option-cases (get_key x nodes)) [
  | inl missing ↦ absurd (ground arith)
  | inr found ↦ found
]

-- With no task left, a known node is started, and it is the only one.
pub start_node-IsExclusive :
    (x : Text) (r : Runtime)
    → r.tasks ≡ []
    → IsKnown r.tree.nodes x
    → All (IsKnown r.tree.nodes) r.tree.queue.deque
    → IsExclusive (start_node x r)
unfolding start_node
start_node-IsExclusive x r none_left k known =
    let (n, found) = node_of_known x r.tree.nodes k.0 in
    rw (found, create_for)
      (record {
        idle = λ e. cc;
        busy = λ e. (
          record { serial = r.next_serial; node_id = x; begun = false; cancelled = false },
          rw none_left refl,
          refl,
        );
        waiting = known;
      })

-- What `dequeue` finds.
pub dequeue-cases :
    (t : MessageTree)
    → ((t.queue.deque ≡ []) × (dequeue t ≡ (none, t)))
      ⊎ ((x : Text) × (xs : List Text) × (q : SnapshotQueue) × (t.queue.deque ≡ x ∷ xs)
          × (dequeue t ≡ (some x, record t { queue = q }))
          × (q.deque ≡ xs))
unfolding dequeue dequeued get_nowait
dequeue-cases t = found t.queue.deque refl
  where
    found :
        (ds : List Text)
        → t.queue.deque ≡ ds
        → ((t.queue.deque ≡ []) × (dequeue t ≡ (none, t)))
          ⊎ ((x : Text) × (xs : List Text) × (q : SnapshotQueue) × (t.queue.deque ≡ x ∷ xs)
              × (dequeue t ≡ (some x, record t { queue = q }))
              × (q.deque ≡ xs))
    found [] e = inl (e, rw (e, popped) refl)
    found (x ∷ xs) e =
        inr
          (x, xs, record { deque = xs; set = discard x t.queue.set }, e, rw (e, popped) refl, refl)

pub process_next-IsExclusive :
    (r : Runtime)
    → r.tasks ≡ []
    → All (IsKnown r.tree.nodes) r.tree.queue.deque
    → IsExclusive (process_next r)
unfolding process_next
process_next-IsExclusive r none_left known = elim (dequeue-cases r.tree) [
  | inl (empty, e) ↦
      rw (e, next_after)
        (record { idle = λ _. (none_left, empty); busy = λ f. cc; waiting = known })
  | inr (x, xs, q, some_wait, e, rest) ↦
      let split = subst (All (IsKnown r.tree.nodes)) some_wait known in
      rw (e, next_after)
        (rw split.0.1 (
          start_node-IsExclusive x (record r { tree = record r.tree { queue = q } }) none_left
            split.0 (subst (All (IsKnown r.tree.nodes)) (sym rest) split.1)))
]

-- The task that is found is the only one.
only_task : (s : ℕ) (k l : Task) → find_task s (l ∷ []) ≡ some k → (k ≡ l) × (l.serial == s ≡ true)
unfolding find_task
only_task s k l h = elim (Bool-cases (l.serial == s)) [
  | inl same ↦
      let here : find_task s (l ∷ []) ≡ some l = rw same refl in
      (sym (some-injective _ _ (sym here ∙ h)), same)
  | inr apart ↦
      absurd (let gone : find_task s (l ∷ []) ≡ none = rw apart refl in let e = sym gone ∙ h in cc)
]

pub self_eq : (s : ℕ) → s == s ≡ true
self_eq s = ground arith

-- Dropping the only task leaves none.
pub drop_only : (k : Task) (tasks : List Task) → tasks ≡ k ∷ [] → drop_task k.serial tasks ≡ []
unfolding filter
drop_only k tasks e = rw e (rw (self_eq k.serial) refl)

-- A task is there only while the tree is processing, and then it is the only one.
pub sole :
    (r : Runtime) (k : Task)
    → IsExclusive r
    → find_task k.serial r.tasks ≡ some k
    → r.tasks ≡ k ∷ []
unfolding find_task
sole r k h found = elim (Bool-cases r.tree.is_processing) [
  | inl on ↦
      let (l, e, _) = h.busy on in
      let f = only_task k.serial k l (sym (ap (find_task k.serial) e) ∙ found) in
      e ∙ ap (λ x. x ∷ []) (sym f.0)
  | inr off ↦ absurd (
      let none_there : find_task k.serial r.tasks ≡ none = rw (h.idle off).0 refl in
      let e = sym none_there ∙ found in cc)
]

pub end_task-IsExclusive :
    (k : Task) (r : Runtime)
    → find_task k.serial r.tasks ≡ some k
    → IsExclusive r
    → IsExclusive (end_task k r)
unfolding end_task
end_task-IsExclusive k r found h =
    process_next-IsExclusive (record r { tasks = drop_task k.serial r.tasks })
      (drop_only k r.tasks (sole r k h found)) h.waiting

pub enqueue_and_start-IsExclusive :
    (x : Text) (r : Runtime)
    → IsKnown r.tree.nodes x
    → IsExclusive r
    → IsExclusive (enqueue_and_start x r).1
unfolding enqueue_and_start
enqueue_and_start-IsExclusive x r k h = elim (Bool-cases r.tree.is_processing) [
  | inl on ↦ rw on (record {
    idle = λ off. cc;
    busy = λ _. h.busy on;
    waiting = All-append (IsKnown r.tree.nodes) r.tree.queue.deque (x ∷ []) h.waiting (k, tt);
  })
  | inr off ↦ rw off (start_node-IsExclusive x r (h.idle off).0 k h.waiting)
]
