-- ===== src/Processor/Progress.antt =====
-- The queue of a tree is worked off in its order.
use mathlib.Core.Path.{subst}
use claude_chakra.Prelude.{
  ℕ, zero, suc, ◌≡◌, refl, sym, ◌∙◌, ap, false, List, [], ◌∷◌, All, Text, length,
}
use claude_chakra.Trees.Queue.{get_nowait, popped}
use claude_chakra.Trees.Tree.{dequeue, dequeued}
use claude_chakra.Processor.{
  Task, Runtime, create_for, start_node, next_after, process_next, end_task, find_task,
}
use claude_chakra.Processor.Changes.{find_only}
use claude_chakra.Processor.Exclusive.{
  IsKnown, IsExclusive, node_of_known, drop_only, end_task-IsExclusive,
}

ahead : List Task → (Task → List Text × Runtime) → Runtime → List Text × Runtime
ahead [] later r = ([], r)
ahead (k ∷ _) later r = let (xs, r') = later k in (k.node_id ∷ xs, r')

-- The tasks of a tree end one after the other, `n` at most: the nodes they were for.
pub serve : ℕ → Runtime → List Text × Runtime
unfolding ahead end_task
serve zero r = ([], r)
serve (suc n) r = ahead r.tasks (λ k. serve n (end_task k r)) r

-- The next node gets a task, and the others still wait.
end_task-next :
    (k : Task) (r : Runtime) (x : Text) (xs : List Text)
    → r.tasks ≡ k ∷ []
    → IsExclusive r
    → r.tree.queue.deque ≡ x ∷ xs
    → (l : Task) × ((end_task k r).tasks ≡ l ∷ [])
      × (l.node_id ≡ x)
      × ((end_task k r).tree.queue.deque ≡ xs)
unfolding end_task process_next start_node dequeue dequeued get_nowait popped
end_task-next k r x xs one h waits =
    let split = subst (All (IsKnown r.tree.nodes)) waits h.waiting in
    let (n, there) = node_of_known x r.tree.nodes split.0.0 in
    let gone = drop_only k r.tasks one in
    rw (ap (λ ds. dequeued (popped ds r.tree.queue) r.tree) waits, next_after)
      (rw split.0.1 (
        rw (there, create_for)
          (
            record { serial = r.next_serial; node_id = x; begun = false; cancelled = false },
            rw gone refl,
            refl,
            refl,
          )))

end_task-last :
    (k : Task) (r : Runtime)
    → r.tasks ≡ k ∷ []
    → r.tree.queue.deque ≡ []
    → ((end_task k r).tasks ≡ []) × ((end_task k r).tree.is_processing ≡ false)
unfolding end_task process_next dequeue dequeued get_nowait popped
end_task-last k r one empty =
    rw (ap (λ ds. dequeued (popped ds r.tree.queue) r.tree) empty, next_after)
      (drop_only k r.tasks one, refl)

serve_more :
    (n : ℕ) (k : Task) (r : Runtime) (xs : List Text) (r' : Runtime)
    → r.tasks ≡ k ∷ []
    → serve n (end_task k r) ≡ (xs, r')
    → serve (suc n) r ≡ (k.node_id ∷ xs, r')
unfolding serve ahead
serve_more n k r xs r' one e =
    ap (λ ks. ahead ks (λ l. serve n (end_task l r)) r) one ∙ ap (λ p. (k.node_id ∷ p.0, p.1)) e

serve_along :
    (ds : List Text) (k : Task) (r : Runtime)
    → IsExclusive r
    → r.tasks ≡ k ∷ []
    → r.tree.queue.deque ≡ ds
    → (r' : Runtime) × (serve (suc (length ds)) r ≡ (k.node_id ∷ ds, r'))
      × (r'.tasks ≡ [])
      × (r'.tree.is_processing ≡ false)
unfolding serve
serve_along [] k r h one e =
    let (gone, off) = end_task-last k r one e in
    (end_task k r, serve_more 0 k r [] (end_task k r) one serve-zero, gone, off)
  where
    serve-zero : serve 0 (end_task k r) ≡ ([], end_task k r)
    serve-zero = refl
serve_along (x ∷ xs) k r h one e =
    let (l, one', named, rest) = end_task-next k r x xs one h e in
    let (r', served, gone, off) =
      serve_along xs l (end_task k r)
        (end_task-IsExclusive k r
          (sym (ap (find_task k.serial) (sym one)) ∙ find_only k (k ∷ []) refl) h)
        one' rest in
    (r', serve_more (suc (length xs)) k r (x ∷ xs) r' one (served ∙ rw named refl), gone, off)

-- When nothing more is enqueued, the tasks after the one that runs are for the nodes that wait, in
-- the order of the queue, and after as many tasks the tree has none and is not processing.
pub serve-queue :
    (k : Task) (r : Runtime)
    → IsExclusive r
    → r.tasks ≡ k ∷ []
    → (r' : Runtime) × (serve (suc (length r.tree.queue.deque)) r
        ≡ (k.node_id ∷ r.tree.queue.deque, r'))
      × (r'.tasks ≡ [])
      × (r'.tree.is_processing ≡ false)
serve-queue k r h one = serve_along r.tree.queue.deque k r h one refl
