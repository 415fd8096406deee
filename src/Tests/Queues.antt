-- ===== src/Tests/Queues.antt =====
-- A conversation of two nodes that are enqueued, and cancelled.
use claude_chakra.Prelude.{
  ◌≡◌, refl, sym, ◌∙◌, true, false, none, some, [], ◌∷◌, Text, codes, text_eq, is_empty, get_key,
  has_key, arith,
}
use claude_chakra.Tests.Conversations.{
  message, grown, add_node_result, start-IsLinked, start as single,
}
use claude_chakra.Trees.History.{add_node-IsLinked}
use claude_chakra.Trees.Node.{MessageNode}
use claude_chakra.Trees.Tree.{is_done, is_current_node}
use claude_chakra.Processor.{
  Runtime, start_node, create_for, enqueue_and_start, cancel_node, cancel_tree,
}
use claude_chakra.Processor.Exclusive.{IsKnown, IsExclusive}
use claude_chakra.Processor.Steps.{enqueues, cancels, Reach, start, next, Reach-IsExclusive}
use claude_chakra.Processor.Progress.{serve, serve-queue}
use claude_chakra.Processor.Cancel.{IsKeyed, cancel_tree-done}
use claude_chakra.Processor.Overlap.{replace, task_of, replace-tasks}

abbrev first : Text
first = codes "m1"

abbrev second : Text
second = codes "m2"

abbrev idle : Runtime
idle = record { tree = grown; tasks = []; current_task = none; next_serial = 7 }

abbrev busy : Runtime
busy = (enqueue_and_start second (enqueue_and_start first idle).1).1

first-IsKnown : IsKnown grown.nodes first
unfolding has_key get_key text_eq is_empty
first-IsKnown = (refl, refl)

second-IsKnown : IsKnown grown.nodes second
unfolding has_key get_key text_eq is_empty
second-IsKnown = (refl, refl)

reached : Reach busy
unfolding enqueue_and_start start_node create_for get_key text_eq
reached =
    next (enqueue_and_start first idle).1 busy
      (next idle (enqueue_and_start first idle).1 (start idle refl refl refl)
        (enqueues first first-IsKnown))
      (enqueues second second-IsKnown)

-- The node that waits is cancelled, while the task of the first has not begun.
abbrev stopped : Runtime
stopped = (cancel_node 9 second busy).1

first_is_current : is_current_node second busy.tree ≡ false
unfolding enqueue_and_start start_node create_for is_current_node get_key text_eq
first_is_current = refl

Reach-IsExclusive_example : IsExclusive stopped
Reach-IsExclusive_example = Reach-IsExclusive stopped (
    next busy stopped reached
      (cancels 9 second (λ e. absurd (let f = sym first_is_current ∙ e in cc))))

serve-queue_example :
    (r : Runtime) × (serve 2 busy ≡ (first ∷ second ∷ [], r))
    × (r.tasks ≡ [])
    × (r.tree.is_processing ≡ false)
unfolding enqueue_and_start start_node create_for get_key text_eq
serve-queue_example = serve-queue (task_of 7 first) busy (Reach-IsExclusive busy reached) refl

grown-IsKeyed : IsKeyed grown.nodes
unfolding get_key text_eq
grown-IsKeyed x n h =
    let linked =
      add_node-IsLinked 2 second message (codes "s2") first single grown refl refl add_node_result
        start-IsLinked in
    (linked.placed x n h).keyed

cancel_tree-done_example :
    let t = (cancel_tree 9 busy).1.tree in
    (t.queue.deque ≡ [])
    × (t.is_processing ≡ false)
    × (t.current_node_id ≡ none)
    × ((x : Text) (n : MessageNode) → get_key x t.nodes ≡ some n → is_done n.state ≡ true)
unfolding enqueue_and_start get_key text_eq
cancel_tree-done_example = cancel_tree-done 9 busy grown-IsKeyed

replace-tasks_example :
    (replace 9 (task_of 7 first) second first grown.nodes (enqueue_and_start first idle).1).tasks
    ≡ task_of 9 first ∷ task_of 8 second ∷ []
unfolding enqueue_and_start start_node create_for get_key text_eq
replace-tasks_example =
    replace-tasks 9 (task_of 7 first) second first grown.nodes (enqueue_and_start first idle).1 refl
      refl (omega arith) second-IsKnown first-IsKnown
