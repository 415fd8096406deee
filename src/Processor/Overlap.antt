-- ===== src/Processor/Overlap.antt =====
-- Two nodes of a tree at a time: the task that `cancel_tree` cancelled ends after the next one began.
use claude_chakra.Prelude.{
  ℕ, ◌+◌, ◌≡◌, refl, ◌∙◌, ap, inl, inr, true, false, Option, none, some, [], ◌∷◌, ◌==◌,
  if◌then◌else◌, filter, Text, is_empty, ◌<◌, Bool-cases, arith,
}
use claude_chakra.Trees.Queue.{get_nowait, popped}
use claude_chakra.Trees.Node.{MessageNode}
use claude_chakra.Trees.Tree.{
  get_node, dequeue, dequeued, set_processing_state, put_queue_unlocked, is_done,
}
use claude_chakra.Trees.Linked.{Nodes}
use claude_chakra.Processor.{
  Task, Runtime, drop_task, create_for, create_task, start_node, next_after, process_next,
  enqueue_and_start, clear, end_task, cancel_current, cancel_running, mark_current, mark_found,
  cancel_tree,
}
use claude_chakra.Processor.Exclusive.{IsKnown, node_of_known, self_eq}
use claude_chakra.Processor.Changes.{cancel_current-found, find_only, cancel_only}

-- A tree is cancelled; its nodes become `nodes`; the node `a` is enqueued; the task `k` of before
-- ends; the node `b` is enqueued.
unfoldable pub replace : ℕ → Task → Text → Text → Nodes → Runtime → Runtime
unfolding cancel_tree enqueue_and_start end_task
replace now k a b nodes r =
    let stopped = (cancel_tree now r).1 in
    let grown = record stopped { tree = record stopped.tree { nodes = nodes } } in
    let ended = end_task k (clear (enqueue_and_start a grown).1) in (enqueue_and_start b ended).1

-- A new task is for its node.
abbrev pub task_of : ℕ → Text → Task
task_of serial x = record { serial = serial; node_id = x; begun = false; cancelled = false }

-- A tree that is not processing starts the node at once.
enqueue_and_start-idle :
    (x : Text) (r : Runtime)
    → r.tree.is_processing ≡ false
    → IsKnown r.tree.nodes x
    → enqueue_and_start x r
      ≡ (false, create_task x (record r { tree = set_processing_state (some x) true r.tree }))
unfolding enqueue_and_start start_node
enqueue_and_start-idle x r off k =
    let (n, found) = node_of_known x r.tree.nodes k.0 in
    let begun = record r { tree = set_processing_state (some x) true r.tree } in
    ap
      (λ q.
        if q
        then (true, record r { tree = put_queue_unlocked x r.tree })
        else (false, start_node x r))
      off
    ∙ ap (λ o. (false, create_for o x begun)) found

process_next-empty :
    (r : Runtime)
    → r.tree.queue.deque ≡ []
    → process_next r ≡ record r { tree = set_processing_state none false r.tree }
unfolding process_next next_after dequeue dequeued get_nowait popped
process_next-empty r empty =
    ap (λ ds. next_after (dequeued (popped ds r.tree.queue) r.tree) r) empty

-- The cancellation marks the current task, and no task goes or comes.
mark_found-tasks :
    (now : ℕ) (x : Text) (o : Option MessageNode) (r : Runtime)
    → ((mark_found now x o r).1.tasks ≡ r.tasks)
      × ((mark_found now x o r).1.next_serial ≡ r.next_serial)
unfolding mark_found
mark_found-tasks now x none r = (refl, refl)
mark_found-tasks now x (some n) r = elim (Bool-cases (is_done n.state)) [
  | inl over ↦ rw over (refl, refl)
  | inr live ↦ rw live (refl, refl)
]

mark_current-tasks :
    (now : ℕ) (o : Option Text) (r : Runtime)
    → ((mark_current now o r).1.tasks ≡ r.tasks)
      × ((mark_current now o r).1.next_serial ≡ r.next_serial)
unfolding mark_current
mark_current-tasks now none r = (refl, refl)
mark_current-tasks now (some x) r = elim (Bool-cases (is_empty x)) [
  | inl nameless ↦ rw nameless (refl, refl)
  | inr named ↦ rw named (mark_found-tasks now x (get_node x r.tree) r)
]

cancel_running-tasks :
    (now : ℕ) (r r' : Runtime)
    → cancel_current r ≡ (true, r')
    → ((cancel_running now r).1.tasks ≡ r'.tasks)
      × ((cancel_running now r).1.next_serial ≡ r'.next_serial)
unfolding cancel_running
cancel_running-tasks now r r' e = rw e (mark_current-tasks now r'.tree.current_node_id r')

-- A tree with one task and nothing else is cancelled, and a node `a` is enqueued before the task has
-- ended. The end of the old task marks the tree as free while the task of `a` is there, so a node `b`
-- that is enqueued next does not wait: both have tasks.
pub replace-tasks :
    (now : ℕ) (k : Task) (a b : Text) (nodes : Nodes) (r : Runtime)
    → r.tasks ≡ k ∷ []
    → r.current_task ≡ some k.serial
    → k.serial < r.next_serial
    → IsKnown nodes a
    → IsKnown nodes b
    → (replace now k a b nodes r).tasks
      ≡ task_of (r.next_serial + 1) b ∷ task_of r.next_serial a ∷ []
unfolding replace cancel_tree end_task filter
replace-tasks now k a b nodes r one current old known_a known_b =
    let stopped = (cancel_tree now r).1 in
    let grown = record stopped { tree = record stopped.tree { nodes = nodes } } in
    let r2 =
      create_task a (record grown { tree = set_processing_state (some a) true grown.tree }) in
    let tasks = drop_task k.serial r2.tasks in
    let r3 = record r2 { tasks = tasks; tree = set_processing_state none false r2.tree } in
    let left =
      cancel_running-tasks now r _
        (cancel_current-found k.serial k r current (find_only k r.tasks one)) in
    let apart : r.next_serial == k.serial ≡ false = ground (arith, old) in
    let kept : tasks ≡ task_of r.next_serial a ∷ [] =
      rw (left.0)
        (rw (left.1) (rw (cancel_only k r.tasks one) (rw apart (rw (self_eq k.serial) refl)))) in
    ap (λ p. (enqueue_and_start b (end_task k (clear p.1))).1.tasks)
      (enqueue_and_start-idle a grown refl known_a)
    ∙ (ap (λ q. (enqueue_and_start b q).1.tasks)
          (process_next-empty (record (clear r2) { tasks = tasks }) refl)
        ∙ (ap (λ p. p.1.tasks) (enqueue_and_start-idle b r3 refl known_b)
            ∙ (ap (λ ts. task_of (stopped.next_serial + 1) b ∷ ts) kept
                ∙ ap (λ m. task_of (m + 1) b ∷ task_of r.next_serial a ∷ []) left.1)))
