-- ===== src/Trees/Tree.antt =====
-- messaging/trees/data.py: `MessageTree`. The nodes are shared objects in the source; here a change
-- of a node is a change of the dictionary of nodes, which holds each node once. The asyncio lock and
-- the current task are left out.
use mathlib.Core.Option
use claude_chakra.Prelude.{
  ℕ, Bool, true, false, Option, none, some, List, [], ◌∷◌, ◌++◌, map, if◌then◌else◌, Text, text_eq,
  is_empty, get_key, set_key, has_key,
}
use claude_chakra.Trees.Queue.{
  SnapshotQueue, new_queue, discard, put, get_nowait, get_snapshot, qsize, remove_if_present,
}
use claude_chakra.Trees.Node.{MessageState, IncomingMessage, MessageNode, new_node}

pub record MessageTree : Type 0 where
  pub root_id : Text
  pub nodes : List (Text × MessageNode)
  pub status_to_node : List (Text × Text)
  pub queue : SnapshotQueue
  pub is_processing : Bool
  pub current_node_id : Option Text

abbrev pub new_tree : MessageNode → MessageTree
new_tree root = record {
  root_id = root.node_id;
  nodes = (root.node_id, root) ∷ [];
  status_to_node = (root.status_message_id, root.node_id) ∷ [];
  queue = new_queue;
  is_processing = false;
  current_node_id = none;
}

abbrev pub get_node : Text → MessageTree → Option MessageNode
get_node node_id t = get_key node_id t.nodes

abbrev pub has_node : Text → MessageTree → Bool
has_node node_id t = has_key node_id t.nodes

-- `none` is a KeyError.
abbrev pub get_root : MessageTree → Option MessageNode
get_root t = get_key t.root_id t.nodes

abbrev pub all_nodes : MessageTree → List MessageNode
all_nodes t = map (λ e. e.1) t.nodes

-- A change of the node object that is stored under an id, if there is one.
unfoldable pub update_in :
    Text
    → (MessageNode → MessageNode)
    → Option MessageNode
    → List (Text × MessageNode)
    → List (Text × MessageNode)
update_in node_id f none nodes = nodes
update_in node_id f (some n) nodes = set_key node_id (f n) nodes

unfoldable pub update :
    Text → (MessageNode → MessageNode) → List (Text × MessageNode) → List (Text × MessageNode)
unfolding update_in
update node_id f nodes = update_in node_id f (get_key node_id nodes) nodes

-- `add_node`; `none` is the ValueError of a parent that is not in the tree.
unfoldable pub add_node :
    ℕ → Text → IncomingMessage → Text → Text → MessageTree → Option MessageTree
unfolding update
add_node now node_id incoming status_message_id parent_id t =
    if has_key parent_id t.nodes
    then some (record t {
      nodes =
          update parent_id (λ p. record p { children_ids = p.children_ids ++ node_id ∷ [] })
            (set_key node_id (new_node now node_id incoming status_message_id (some parent_id))
              t.nodes);
      status_to_node = set_key status_message_id node_id t.status_to_node;
    })
    else none

unfoldable pub known : List Text → List (Text × MessageNode) → List MessageNode
known [] nodes = []
known (c ∷ cs) nodes =
    let rest = known cs nodes in elim (get_key c nodes) [ none ↦ rest | some n ↦ n ∷ rest ]

unfoldable pub get_children : Text → MessageTree → List MessageNode
unfolding known
get_children node_id t = elim (get_node node_id t) [
  | none ↦ []
  | some n ↦ known n.children_ids t.nodes
]

-- `not node.parent_id` holds for an empty id too.
unfoldable pub parent_of : Option Text → MessageTree → Option MessageNode
parent_of none t = none
parent_of (some p) t = if is_empty p then none else get_node p t

unfoldable pub get_parent : Text → MessageTree → Option MessageNode
unfolding parent_of
get_parent node_id t = Option.bind (get_node node_id t) λ n. parent_of n.parent_id t

unfoldable pub get_parent_session_id : Text → MessageTree → Option Text
unfolding get_parent
get_parent_session_id node_id t = Option.bind (get_parent node_id t) λ p. p.session_id

-- `value or old`, as in `if value: field = value`.
unfoldable pub or_old : Option Text → Option Text → Option Text
or_old none old = old
or_old (some v) old = if is_empty v then old else some v

abbrev pub is_done : MessageState → Bool
is_done MessageState.completed = true
is_done MessageState.error = true
is_done _ = false

unfoldable pub with_state : ℕ → MessageState → Option Text → Option Text → MessageNode → MessageNode
unfolding or_old
with_state now state session_id error_message n = record n {
  state = state;
  session_id = or_old session_id n.session_id;
  error_message = or_old error_message n.error_message;
  completed_at = if is_done state then some now else n.completed_at;
}

unfoldable pub update_state :
    ℕ → Text → MessageState → Option Text → Option Text → MessageTree → MessageTree
unfolding update with_state
update_state now node_id state session_id error_message t = record t {
  nodes = update node_id (with_state now state session_id error_message) t.nodes;
}

-- The position in the queue, from 1.
unfoldable pub enqueue : Text → MessageTree → ℕ × MessageTree
enqueue node_id t = let q = put node_id t.queue in (qsize q, record t { queue = q })

unfoldable pub dequeued : Option (Text × SnapshotQueue) → MessageTree → Option Text × MessageTree
dequeued none t = (none, t)
dequeued (some (x, q)) t = (some x, record t { queue = q })

unfoldable pub dequeue : MessageTree → Option Text × MessageTree
unfolding dequeued
dequeue t = dequeued (get_nowait t.queue) t

abbrev pub get_queue_snapshot : MessageTree → List Text
get_queue_snapshot t = get_snapshot t.queue

abbrev pub get_queue_size : MessageTree → ℕ
get_queue_size t = qsize t.queue

abbrev pub put_queue_unlocked : Text → MessageTree → MessageTree
put_queue_unlocked node_id t = record t { queue = put node_id t.queue }

unfoldable pub remove_from_queue : Text → MessageTree → Bool × MessageTree
remove_from_queue node_id t =
    let (b, q) = remove_if_present node_id t.queue in (b, record t { queue = q })

abbrev pub set_processing_state : Option Text → Bool → MessageTree → MessageTree
set_processing_state node_id processing t = record t {
  is_processing = processing;
  current_node_id = if processing then node_id else none;
}

abbrev pub clear_current_node : MessageTree → MessageTree
clear_current_node t = record t { current_node_id = none }

abbrev pub reset_processing_state : MessageTree → MessageTree
reset_processing_state t = record t { is_processing = false; current_node_id = none }

unfoldable pub is_current_node : Text → MessageTree → Bool
is_current_node node_id t = elim t.current_node_id [ none ↦ false | some c ↦ text_eq c node_id ]

abbrev pub failed_at : ℕ → Text → MessageNode → MessageNode
failed_at now error_message n = record n {
  state = MessageState.error;
  error_message = some error_message;
  completed_at = some now;
}

unfoldable pub mark_first : ℕ → Text → Option MessageNode → List MessageNode → List MessageNode
mark_first now message none marked = marked
mark_first now message (some n) marked = failed_at now message n ∷ marked

-- The loop over the queue, one round for each item: what it marks, and the nodes after it.
unfoldable pub drain :
    ℕ → Text → List Text → List (Text × MessageNode) → List MessageNode × List (Text × MessageNode)
unfolding update mark_first
drain now message [] nodes = ([], nodes)
drain now message (x ∷ xs) nodes =
    let (marked, nodes') = drain now message xs (update x (failed_at now message) nodes) in
    (mark_first now message (get_key x nodes) marked, nodes')

unfoldable pub discard_all : List Text → List Text → List Text
discard_all [] set = set
discard_all (x ∷ xs) set = discard_all xs (discard x set)

unfoldable pub drain_queue_and_mark_cancelled :
    ℕ → Text → MessageTree → List MessageNode × MessageTree
unfolding drain discard_all
drain_queue_and_mark_cancelled now message t =
    let (marked, nodes) = drain now message t.queue.deque t.nodes in
    (
      marked,
      record t {
        nodes = nodes;
        queue = record { deque = []; set = discard_all t.queue.deque t.queue.set };
      },
    )

unfoldable pub find_node_by_status_message : Text → MessageTree → Option MessageNode
find_node_by_status_message status_msg_id t =
    Option.bind (get_key status_msg_id t.status_to_node)
      λ n. if is_empty n then none else get_node n t
