-- ===== src/Processor/Steps.antt =====
-- One node at a time, after any operations in any order.
use claude_chakra.Prelude.{ℕ, ◌≡◌, sym, ◌∙◌, true, false, Option, some, [], All, Text}
use claude_chakra.Trees.Node.{MessageState, IncomingMessage}
use claude_chakra.Trees.Tree.{MessageTree, add_node, with_state, update_state, is_current_node}
use claude_chakra.Processor.{
  Task, Runtime, find_task, enqueue_and_start, begin, clear, end_task, record_failure, cancel_node,
}
use claude_chakra.Processor.Exclusive.{
  IsExclusive, IsKnown, end_task-IsExclusive, enqueue_and_start-IsExclusive,
}
use claude_chakra.Processor.Changes.{
  add_node-IsExclusive, begin-IsExclusive, cancel_node-IsExclusive, record_failure-IsExclusive,
  update-IsExclusive,
}

-- What happens to a tree, except that its whole is cancelled or a branch of it, or the current node
-- before its task has begun. What is enqueued is a node of the tree, with a non-empty id.
pub data Step (r : Runtime) : Runtime → Type 0 where
  enqueues : (x : Text) → IsKnown r.tree.nodes x → Step r (enqueue_and_start x r).1
  begins : (k : Task) → find_task k.serial r.tasks ≡ some k → Step r (begin k r)
  fails :
      (now : ℕ) (x : Text) (failure : Option Text)
      → Step r (record r { tree = record_failure now x failure r.tree })
  updates :
      (now : ℕ) (x : Text) (state : MessageState) (session message : Option Text)
      → Step r (record r { tree = update_state now x state session message r.tree })
  clears : Step r (clear r)
  finishes :
      (k : Task) → find_task k.serial r.tasks ≡ some k → k.begun ≡ true → Step r (end_task k r)
  cancels :
      (now : ℕ) (x : Text)
      → (is_current_node x r.tree ≡ true → All (λ k. k.begun ≡ true) r.tasks)
      → Step r (cancel_node now x r).1
  adds :
      (now : ℕ) (x : Text) (incoming : IncomingMessage) (status parent : Text) (t : MessageTree)
      → add_node now x incoming status parent r.tree ≡ some t
      → Step r (record r { tree = t })

pub data Reach : Runtime → Type 0 where
  start :
      (r : Runtime)
      → r.tree.is_processing ≡ false
      → r.tasks ≡ []
      → r.tree.queue.deque ≡ []
      → Reach r
  next : (r r' : Runtime) → Reach r → Step r r' → Reach r'

Step-IsExclusive : (r r' : Runtime) → Step r r' → IsExclusive r → IsExclusive r'
unfolding update_state
Step-IsExclusive r _ (enqueues x k) h = enqueue_and_start-IsExclusive x r k h
Step-IsExclusive r _ (begins k found) h = begin-IsExclusive k r found h
Step-IsExclusive r _ (fails now x failure) h = record_failure-IsExclusive now x failure r h
Step-IsExclusive r _ (updates now x state session message) h =
    update-IsExclusive x (with_state now state session message) r h
Step-IsExclusive r _ clears h = record { idle = h.idle; busy = h.busy; waiting = h.waiting }
Step-IsExclusive r _ (finishes k found _) h = end_task-IsExclusive k r found h
Step-IsExclusive r _ (cancels now x _) h = cancel_node-IsExclusive now x r h
Step-IsExclusive r _ (adds now x incoming status parent t e) h =
    add_node-IsExclusive now x incoming status parent r t e h

-- Whatever nodes of the tree with a non-empty id were enqueued, and whatever was cancelled, updated,
-- added and finished, with no cancellation of the whole tree or a branch, and none of the current
-- node before its task has begun: a tree that is processing has exactly one task, its current one; a
-- tree that is not has none, and nothing waits in it; all that waits is still in the tree.
pub Reach-IsExclusive : (r : Runtime) → Reach r → IsExclusive r
Reach-IsExclusive _ (start r off none_left empty) = record {
  idle = λ _. (none_left, empty);
  busy = λ on. absurd (let e = sym on ∙ off in cc);
  waiting = rw empty tt;
}
Reach-IsExclusive _ (next r r' before step) =
    Step-IsExclusive r r' step (Reach-IsExclusive r before)
