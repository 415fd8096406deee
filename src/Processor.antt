-- ===== src/Processor.antt =====
-- messaging/trees/queue_manager.py: `TreeQueueProcessor`, which works through the queue of a tree,
-- one node at a time, and the operations of `TreeQueueManager` that cancel.
--
-- `Runtime` is one tree with its asyncio tasks that are not done. A task that was created has not
-- begun; asyncio begins it later, and does not run its body at all if it was cancelled before. What
-- runs under the tree's lock, or with no `await` in between, is one function. What the processor
-- callback does to the nodes, and how it ends, is given. The two notifications are left out.
pub mod Exclusive
pub mod Changes
pub mod Steps
pub mod Progress
pub mod Cancel
pub mod Overlap
use claude_chakra.Prelude.{
  ℕ, suc, ◌+◌, Bool, true, false, not, ◌&&◌, Option, none, some, List, [], ◌∷◌, ◌++◌, map, ◌==◌,
  if◌then◌else◌, filter, any, Text, codes, text_eq, is_empty, get_key,
}
use claude_chakra.Trees.Queue.{contains}
use claude_chakra.Trees.Node.{MessageState, MessageNode}
use claude_chakra.Trees.Tree.{
  MessageTree, get_node, update, update_state, dequeue, put_queue_unlocked, remove_from_queue,
  set_processing_state, clear_current_node, reset_processing_state, is_current_node, is_done,
  failed_at, drain_queue_and_mark_cancelled,
}

pub record Task : Type 0 where
  pub serial : ℕ
  pub node_id : Text
  pub begun : Bool
  pub cancelled : Bool

-- `current_task` is the serial of the tree's `_current_task`.
pub record Runtime : Type 0 where
  pub tree : MessageTree
  pub tasks : List Task
  pub current_task : Option ℕ
  pub next_serial : ℕ

unfoldable pub find_task : ℕ → List Task → Option Task
find_task s [] = none
find_task s (k ∷ ks) = let rest = find_task s ks in if k.serial == s then some k else rest

abbrev pub drop_task : ℕ → List Task → List Task
drop_task s = filter (λ k. not (k.serial == s))

-- `tree.set_current_task(asyncio.create_task(self.process_node(...)))`.
abbrev pub create_task : Text → Runtime → Runtime
create_task node_id r = record r {
  tasks =
      record { serial = r.next_serial; node_id = node_id; begun = false; cancelled = false }
      ∷ r.tasks;
  current_task = some r.next_serial;
  next_serial = r.next_serial + 1;
}

unfoldable pub create_for : Option MessageNode → Text → Runtime → Runtime
create_for none node_id r = r
create_for (some n) node_id r = create_task node_id r

-- The node becomes the current one, with a task if the tree has it.
unfoldable pub start_node : Text → Runtime → Runtime
unfolding create_for
start_node node_id r =
    create_for (get_node node_id r.tree) node_id
      (record r { tree = set_processing_state (some node_id) true r.tree })

unfoldable pub next_after : Option Text × MessageTree → Runtime → Runtime
unfolding start_node
next_after (none, t) r = record r { tree = set_processing_state none false t }
next_after (some x, t) r =
    if is_empty x
    then record r { tree = set_processing_state none false t }
    else start_node x (record r { tree = t })

unfoldable pub process_next : Runtime → Runtime
unfolding next_after dequeue
process_next r = next_after (dequeue r.tree) r

-- Whether the node was queued.
unfoldable pub enqueue_and_start : Text → Runtime → Bool × Runtime
unfolding start_node
enqueue_and_start node_id r =
    if r.tree.is_processing
    then (true, record r { tree = put_queue_unlocked node_id r.tree })
    else (false, start_node node_id r)

unfoldable pub is_error : Option MessageNode → Bool
is_error none = false
is_error (some n) = elim n.state [ MessageState.error ↦ true | _ ↦ false ]

unfoldable pub mark_begun : ℕ → List Task → List Task
mark_begun s = map (λ k. if k.serial == s then record k { begun = true } else k)

-- The first part of `process_node`: a node in the state ERROR is skipped.
unfoldable pub begin : Task → Runtime → Runtime
unfolding is_error mark_begun process_next
begin k r =
    if is_error (get_node k.node_id r.tree)
    then process_next (record r { tasks = drop_task k.serial r.tasks })
    else record r { tasks = mark_begun k.serial r.tasks }

-- The message of an exception that is not a cancellation, if there was one.
unfoldable pub record_failure : ℕ → Text → Option Text → MessageTree → MessageTree
unfolding update_state
record_failure now node_id none t = t
record_failure now node_id (some message) t =
    update_state now node_id MessageState.error none (some message) t

-- The two parts of the `finally`. The tree's lock is free between them, and a task that took it for
-- the second part does nothing after it.
abbrev pub clear : Runtime → Runtime
clear r = record r { tree = clear_current_node r.tree }

unfoldable pub end_task : Task → Runtime → Runtime
unfolding process_next
end_task k r = process_next (record r { tasks = drop_task k.serial r.tasks })

unfoldable pub mark_cancelled : ℕ → List Task → List Task
mark_cancelled s = map (λ k. if k.serial == s then record k { cancelled = true } else k)

unfoldable pub cancel_found : Option Task → Runtime → Bool × Runtime
unfolding mark_cancelled
cancel_found none r = (false, r)
cancel_found (some k) r = (true, record r { tasks = mark_cancelled k.serial r.tasks })

unfoldable pub cancel_serial : Option ℕ → Runtime → Bool × Runtime
unfolding cancel_found find_task
cancel_serial none r = (false, r)
cancel_serial (some s) r = cancel_found (find_task s r.tasks) r

-- `cancel_current_task`: a task that is done is not found.
unfoldable pub cancel_current : Runtime → Bool × Runtime
unfolding cancel_serial
cancel_current r = cancel_serial r.current_task r

abbrev pub cancelled_message : Text
cancelled_message = codes "Cancelled by user"

-- `set_node_error_sync` on the node of the tree.
abbrev pub fail_node : ℕ → Text → Text → MessageTree → MessageTree
fail_node now message node_id t = record t {
  nodes = update node_id (failed_at now message) t.nodes;
}

unfoldable pub cancel_found_node :
    ℕ → Text → Option MessageNode → Runtime → List MessageNode × Runtime
unfolding cancel_current remove_from_queue update
cancel_found_node now node_id none r = ([], r)
cancel_found_node now node_id (some n) r =
    if is_done n.state
    then ([], r)
    else (let stopped = if is_current_node node_id r.tree then (cancel_current r).1 else r in
        (
          failed_at now cancelled_message n ∷ [],
          record stopped {
            tree =
                fail_node now cancelled_message node_id (remove_from_queue node_id stopped.tree).1;
          },
        ))

unfoldable pub cancel_node : ℕ → Text → Runtime → List MessageNode × Runtime
unfolding cancel_found_node is_current_node
cancel_node now node_id r = cancel_found_node now node_id (get_node node_id r.tree) r

abbrev pub is_active : MessageState → Bool
is_active MessageState.pending = true
is_active MessageState.in_progress = true
is_active _ = false

unfoldable pub mark_found : ℕ → Text → Option MessageNode → Runtime → List MessageNode × Runtime
unfolding update
mark_found now node_id none r = ([], r)
mark_found now node_id (some n) r = if is_done n.state then ([], r) else (
  failed_at now cancelled_message n ∷ [],
  record r { tree = fail_node now cancelled_message node_id r.tree },
)

unfoldable pub mark_current : ℕ → Option Text → Runtime → List MessageNode × Runtime
unfolding mark_found
mark_current now none r = ([], r)
mark_current now (some node_id) r =
    if is_empty node_id then ([], r) else mark_found now node_id (get_node node_id r.tree) r

unfoldable pub cancel_running : ℕ → Runtime → List MessageNode × Runtime
unfolding cancel_current mark_current
cancel_running now r =
    let (stopped, r') = cancel_current r in
    if stopped then mark_current now r'.tree.current_node_id r' else ([], r')

abbrev pub stale_message : Text
stale_message = codes "Stale task cleaned up"

abbrev pub swept : ℕ → List Text → MessageNode → MessageNode
swept now ids n =
    if is_active n.state && not (contains n.node_id ids) then failed_at now stale_message n else n

-- The loop over all nodes, for those that are active and were not cancelled before.
unfoldable pub sweep : ℕ → List Text → List (Text × MessageNode) → List (Text × MessageNode)
unfolding contains
sweep now ids = map (λ e. (e.0, swept now ids e.1))

unfoldable pub cancel_tree : ℕ → Runtime → List MessageNode × Runtime
unfolding cancel_running drain_queue_and_mark_cancelled sweep
cancel_tree now r =
    let (first, r') = cancel_running now r in
    let (queued, t) = drain_queue_and_mark_cancelled now cancelled_message r'.tree in
    let ids = map (λ n. n.node_id) (first ++ queued) in
    (
      first ++ queued,
      record r' { tree = reset_processing_state (record t { nodes = sweep now ids t.nodes }) },
    )
