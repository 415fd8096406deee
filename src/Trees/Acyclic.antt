-- ===== src/Trees/Acyclic.antt =====
-- The ranks of the trees that the steps of Trees.History lead to.
use mathlib.Core.Option.{some-injective}
use claude_chakra.Prelude.{
  ◌≡◌, refl, sym, ◌∙◌, ap, inl, inr, Option, none, some, [], Text, text_eq, get_key, Bool-cases,
  arith,
}
use claude_chakra.Trees.Queue.{contains, SnapshotQueue, get_nowait}
use claude_chakra.Trees.Node.{MessageNode}
use claude_chakra.Trees.Tree.{
  MessageTree, enqueue, dequeue, dequeued, remove_from_queue, update_state, with_state,
  drain_queue_and_mark_cancelled,
}
use claude_chakra.Trees.History.{
  Step, adds, removes, updates, enqueues, puts, dequeues, unqueues, cancels, processes, clears,
  resets, Reach, starts, goes_on, Reach-IsLinked,
}
use claude_chakra.Trees.Linked.{Nodes, IsLinked, update-AreRelated, drain-AreRelated}
use claude_chakra.Trees.Growth.{contains_none}
use claude_chakra.Trees.Ranked.{IsRanked, IsRanked-related, add_node-IsRanked}
use claude_chakra.Trees.Detached.{HadNode, remove_branch_leaves}

IsRanked-fewer :
    (old new : Nodes)
    → ((x : Text) (n : MessageNode) → get_key x new ≡ some n → HadNode old x n)
    → IsRanked old
    → IsRanked new
IsRanked-fewer old new had h = record {
  rank = h.rank;
  bound = h.bound;
  bounded = h.bounded;
  rises = λ x c n e child. let w = had x n e in h.rises x c w.node w.found (w.fewer c child);
}

dequeued-IsRanked :
    (t : MessageTree) (o : Option (Text × SnapshotQueue))
    → IsRanked t.nodes
    → IsRanked (dequeued o t).1.nodes
unfolding dequeued
dequeued-IsRanked t none h = h
dequeued-IsRanked t (some (x, q)) h = h

Step-IsRanked : {t t' : MessageTree} → Step t t' → IsLinked t → IsRanked t.nodes → IsRanked t'.nodes
unfolding enqueue dequeue remove_from_queue update_state with_state drain_queue_and_mark_cancelled
Step-IsRanked (adds t t' now id incoming status parent new_id new_status added) linked h =
    add_node-IsRanked now id incoming status parent t t' new_id new_status added linked h
Step-IsRanked (removes t t' fuel id removed not_root named done) linked h =
    IsRanked-fewer t.nodes t'.nodes
      (remove_branch_leaves fuel id t removed t' linked not_root named done).was h
Step-IsRanked (updates t now id state session_id error_message) linked h =
    IsRanked-related t.nodes _
      (update-AreRelated id (with_state now state session_id error_message) t.nodes
        (λ n. record { id = refl; parent = refl; children = refl; status = refl }))
      h
Step-IsRanked (enqueues t id) linked h = h
Step-IsRanked (puts t id) linked h = h
Step-IsRanked (dequeues t) linked h = dequeued-IsRanked t (get_nowait t.queue) h
Step-IsRanked (unqueues t id) linked h = h
Step-IsRanked (cancels t now message) linked h =
    IsRanked-related t.nodes _ (drain-AreRelated now message t.queue.deque t.nodes) h
Step-IsRanked (processes t id processing) linked h = h
Step-IsRanked (clears t) linked h = h
Step-IsRanked (resets t) linked h = h

-- Every tree that the steps lead to, from a root with no parent and no children on, has ranks.
pub Reach-IsRanked :
    (root : MessageNode) (t : MessageTree)
    → root.parent_id ≡ none
    → root.children_ids ≡ []
    → Reach root t
    → IsRanked t.nodes
unfolding get_key
Reach-IsRanked root t top bare starts = record {
  rank = λ x. 0;
  bound = 0;
  bounded = λ x. omega arith;
  rises = λ x c n e child. absurd (elim (Bool-cases (text_eq root.node_id x)) [
    | inl same ↦
        let is_root : root ≡ n = some-injective _ _ (rw same at e) in
        let g =
          sym (ap (contains c) bare ∙ contains_none c)
          ∙ (ap (λ m. contains c m.children_ids) is_root ∙ child) in
        cc
    | inr differs ↦ let f = rw differs at e in cc
  ]);
}
Reach-IsRanked root t' top bare (goes_on {t} r s) =
    Step-IsRanked s (Reach-IsLinked root t top bare r) (Reach-IsRanked root t top bare r)
