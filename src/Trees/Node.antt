-- ===== src/Trees/Node.antt =====
-- messaging/trees/data.py: `MessageState` and `MessageNode`, and `IncomingMessage` of
-- messaging/models.py. Times are opaque numbers. A node's `context` and a message's `raw_event` are
-- objects of any type: a number stands for the object, and `none` is None.
use claude_chakra.Prelude.{ℕ, Option, none, List, [], Text}

pub data MessageState : Type 0 where
  pending in_progress completed error : MessageState

pub record IncomingMessage : Type 0 where
  pub text : Text
  pub chat_id : Text
  pub user_id : Text
  pub message_id : Text
  pub platform : Text
  pub reply_to_message_id : Option Text
  pub message_thread_id : Option Text
  pub username : Option Text
  pub status_message_id : Option Text
  pub timestamp : ℕ
  pub raw_event : Option ℕ

pub record MessageNode : Type 0 where
  pub node_id : Text
  pub incoming : IncomingMessage
  pub status_message_id : Text
  pub state : MessageState
  pub parent_id : Option Text
  pub session_id : Option Text
  pub children_ids : List Text
  pub created_at : ℕ
  pub completed_at : Option ℕ
  pub error_message : Option Text
  pub context : Option ℕ

-- The node that `add_node` makes at the time `now`.
abbrev pub new_node : ℕ → Text → IncomingMessage → Text → Option Text → MessageNode
new_node now node_id incoming status_message_id parent_id = record {
  node_id = node_id;
  incoming = incoming;
  status_message_id = status_message_id;
  state = MessageState.pending;
  parent_id = parent_id;
  session_id = none;
  children_ids = [];
  created_at = now;
  completed_at = none;
  error_message = none;
  context = none;
}
