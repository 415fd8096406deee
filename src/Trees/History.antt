-- ===== src/Trees/History.antt =====
-- The operations of messaging/trees/data.py as steps, and the links of the trees they lead to.
use mathlib.Core.Option.{some-injective}
use mathlib.Core.Path.{subst}
use claude_chakra.Prelude.{
  ℕ, ◌≡◌, ◌≢◌, refl, sym, ◌∙◌, ap, inl, inr, Bool, Option, none, some, List, [], Text, text_eq,
  text_eq_sound, text_eq_refl, Bool-cases, Option-cases, get_key, set_key, has_key,
}
use claude_chakra.Trees.Queue.{contains, SnapshotQueue, get_nowait}
use claude_chakra.Trees.Node.{IncomingMessage, MessageNode}
use claude_chakra.Trees.Tree.{MessageTree, new_tree, add_node}
use claude_chakra.Trees.Linked.{IsPlaced, IsLinked}
use claude_chakra.Trees.Growth.{grown, IsFresh, kept, all-IsPlaced, contains_none}
use claude_chakra.Trees.Linked.{update_state-IsLinked, drain-IsLinked}
use claude_chakra.Trees.Tree.{
  enqueue, put_queue_unlocked, dequeue, dequeued, remove_from_queue, update_state,
  drain_queue_and_mark_cancelled, set_processing_state, clear_current_node, reset_processing_state,
}
use claude_chakra.Trees.Node.{MessageState}
use claude_chakra.Trees.Removal.{remove_branch}
use claude_chakra.Trees.Detached.{HasNamedParent, remove_branch_leaves}

-- Adding a node whose id and status message are new to a linked tree gives a linked tree: the new
-- node is a child of its parent, and everything else keeps its place.
pub add_node-IsLinked :
    (now : ℕ) (id : Text) (incoming : IncomingMessage) (status parent : Text) (t t' : MessageTree)
    → get_key id t.nodes ≡ none
    → get_key status t.status_to_node ≡ none
    → add_node now id incoming status parent t ≡ some t'
    → IsLinked t
    → IsLinked t'
unfolding add_node has_key
add_node-IsLinked now id incoming status parent t t' new_id new_status added h =
    elim (Option-cases (get_key parent t.nodes)) [
      | inl missing ↦ absurd (
          let refused : add_node now id incoming status parent t ≡ none = rw missing refl in
          let e = sym refused ∙ added in cc)
      | inr (p, found) ↦
          let fresh : IsFresh now id incoming status parent p t.nodes t.status_to_node = record {
            found = found;
            new_id = new_id;
            new_status = new_status;
            placed = h.placed;
          } in
          let (r, at, top) = h.root in
          let (r', at', same, _) =
            kept now id incoming status parent p t.nodes t.status_to_node fresh t.root_id r at in
          let grown_tree : MessageTree = record t {
            nodes = grown now id incoming status parent p t.nodes t.status_to_node;
            status_to_node = set_key status id t.status_to_node;
          } in
          let result : add_node now id incoming status parent t ≡ some grown_tree = rw found refl in
          subst IsLinked (some-injective _ _ (sym result ∙ added)) (record {
            placed = all-IsPlaced now id incoming status parent p t.nodes t.status_to_node fresh;
            root = (r', at', same ∙ top);
          })
    ]

-- The tree of a root with no parent and no children is linked.
pub new_tree-IsLinked :
    (root : MessageNode) → root.parent_id ≡ none → root.children_ids ≡ [] → IsLinked (new_tree root)
unfolding get_key
new_tree-IsLinked root top bare = record {
  placed = λ id n e. elim (Bool-cases (text_eq root.node_id id)) [
    | inl same ↦
        let is_root : root ≡ n = some-injective _ _ (rw same refl ∙ e) in
        subst (IsPlaced _ _ id) is_root (record {
          keyed = text_eq_sound root.node_id id same;
          up = λ p at. absurd (let f = sym top ∙ at in cc);
          down = λ c at. absurd (let f = sym at ∙ (ap (contains c) bare ∙ contains_none c) in cc);
          indexed =
              rw (text_eq_refl root.status_message_id)
                (ap some (text_eq_sound root.node_id id same));
        })
    | inr differs ↦ absurd (
        let gone : get_key id (new_tree root).nodes ≡ none = rw differs refl in
        let f = sym gone ∙ e in cc)
  ];
  root = (root, rw (text_eq_refl root.node_id) refl, top);
}

-- One operation on a tree. A node is added under a new id and with a new status message, and a branch
-- is removed that is not the whole tree and whose parent has a non-empty id.
pub data Step : MessageTree → MessageTree → Type 0 where
  adds :
      (t t' : MessageTree) (now : ℕ) (id : Text) (incoming : IncomingMessage) (status parent : Text)
      → get_key id t.nodes ≡ none
      → get_key status t.status_to_node ≡ none
      → add_node now id incoming status parent t ≡ some t'
      → Step t t'
  removes :
      (t t' : MessageTree) (fuel : ℕ) (id : Text) (removed : List MessageNode)
      → id ≢ t.root_id
      → HasNamedParent id t
      → remove_branch fuel id t ≡ some (removed, t')
      → Step t t'
  updates :
      (t : MessageTree) (now : ℕ) (id : Text) (state : MessageState)
      (session_id error_message : Option Text)
      → Step t (update_state now id state session_id error_message t)
  enqueues : (t : MessageTree) (id : Text) → Step t (enqueue id t).1
  puts : (t : MessageTree) (id : Text) → Step t (put_queue_unlocked id t)
  dequeues : (t : MessageTree) → Step t (dequeue t).1
  unqueues : (t : MessageTree) (id : Text) → Step t (remove_from_queue id t).1
  cancels :
      (t : MessageTree) (now : ℕ) (message : Text)
      → Step t (drain_queue_and_mark_cancelled now message t).1
  processes :
      (t : MessageTree) (id : Option Text) (processing : Bool)
      → Step t (set_processing_state id processing t)
  clears : (t : MessageTree) → Step t (clear_current_node t)
  resets : (t : MessageTree) → Step t (reset_processing_state t)

pub data Reach (root : MessageNode) : MessageTree → Type 0 where
  starts : Reach root (new_tree root)
  goes_on : {t t' : MessageTree} → Reach root t → Step t t' → Reach root t'

dequeued-IsLinked :
    (t : MessageTree) (o : Option (Text × SnapshotQueue)) → IsLinked t → IsLinked (dequeued o t).1
unfolding dequeued
dequeued-IsLinked t none h = h
dequeued-IsLinked t (some (x, q)) h = record { placed = h.placed; root = h.root }

Step-IsLinked : {t t' : MessageTree} → Step t t' → IsLinked t → IsLinked t'
unfolding enqueue dequeue remove_from_queue
Step-IsLinked (adds t t' now id incoming status parent new_id new_status added) h =
    add_node-IsLinked now id incoming status parent t t' new_id new_status added h
Step-IsLinked (removes t t' fuel id removed not_root named done) h =
    (remove_branch_leaves fuel id t removed t' h not_root named done).linked
Step-IsLinked (updates t now id state session_id error_message) h =
    update_state-IsLinked now id state session_id error_message t h
Step-IsLinked (enqueues t id) h = record { placed = h.placed; root = h.root }
Step-IsLinked (puts t id) h = record { placed = h.placed; root = h.root }
Step-IsLinked (dequeues t) h = dequeued-IsLinked t (get_nowait t.queue) h
Step-IsLinked (unqueues t id) h = record { placed = h.placed; root = h.root }
Step-IsLinked (cancels t now message) h = drain-IsLinked now message t h
Step-IsLinked (processes t id processing) h = record { placed = h.placed; root = h.root }
Step-IsLinked (clears t) h = record { placed = h.placed; root = h.root }
Step-IsLinked (resets t) h = record { placed = h.placed; root = h.root }

-- Every tree that grows from a root with no parent and no children, by any sequence of operations
-- that adds nodes under new ids with new status messages only, and removes only branches under a node
-- that is not the root and whose parent has a non-empty id, is linked: a node stands under its own id,
-- parents and children name each other, a status message leads to its node, and the root is there and
-- has no parent.
pub Reach-IsLinked :
    (root : MessageNode) (t : MessageTree)
    → root.parent_id ≡ none
    → root.children_ids ≡ []
    → Reach root t
    → IsLinked t
Reach-IsLinked root t top bare starts = new_tree-IsLinked root top bare
Reach-IsLinked root t' top bare (goes_on {t} r s) =
    Step-IsLinked s (Reach-IsLinked root t top bare r)
