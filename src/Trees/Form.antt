-- ===== src/Trees/Form.antt =====
-- messaging/trees/data.py: `MessageNode.to_dict` and `MessageNode.from_dict`. `isoformat` and
-- `fromisoformat` of the datetime module are arguments, and so is the time that a new message gets as
-- its `timestamp`. A value of a type that `to_dict` does not
-- write is refused here, where the code would carry it on.
use mathlib.Core.Option
use claude_chakra.Prelude.{
  ℕ, Option, none, some, List, [], ◌∷◌, if◌then◌else◌, Text, codes, text_eq, is_empty,
}
use claude_chakra.Trees.Node.{MessageState, IncomingMessage, MessageNode}

mutual
  pub data Json : Type 0 where
    null : Json
    str : Text → Json
    arr : Items → Json
    obj : Fields → Json

  pub data Items : Type 0 where
    nil : Items
    item : Json → Items → Items

  pub data Fields : Type 0 where
    end : Fields
    field : Text → Json → Fields → Fields

-- `data.get(key)`.
unfoldable pub lookup : Text → Fields → Option Json
lookup key end = none
lookup key (field k v fs) = if text_eq k key then some v else lookup key fs

unfoldable pub as_text : Json → Option Text
as_text (str s) = some s
as_text _ = none

unfoldable pub as_fields : Json → Option Fields
as_fields (obj fs) = some fs
as_fields _ = none

-- A field that may be missing or null.
unfoldable pub as_optional : Option Json → Option (Option Text)
as_optional none = some none
as_optional (some null) = some none
as_optional (some (str s)) = some (some s)
as_optional (some _) = none

unfoldable pub texts : Items → Option (List Text)
unfolding as_text
texts nil = some []
texts (item v vs) = Option.bind (as_text v) λ s. Option.map (λ rest. s ∷ rest) (texts vs)

-- `data.get("children_ids", [])`.
unfoldable pub as_texts : Option Json → Option (List Text)
unfolding texts
as_texts none = some []
as_texts (some (arr vs)) = texts vs
as_texts (some _) = none

unfoldable pub text_at : Text → Fields → Option Text
unfolding lookup as_text
text_at key fs = Option.bind (lookup key fs) as_text

unfoldable pub write_optional : Option Text → Json
write_optional none = null
write_optional (some s) = str s

unfoldable pub write_texts : List Text → Items
write_texts [] = nil
write_texts (s ∷ rest) = item (str s) (write_texts rest)

-- The value of the enumeration.
unfoldable pub state_value : MessageState → Text
state_value MessageState.pending = codes "pending"
state_value MessageState.in_progress = codes "in_progress"
state_value MessageState.completed = codes "completed"
state_value MessageState.error = codes "error"

-- `MessageState(value)`; `none` is its ValueError.
unfoldable pub state_of : Text → Option MessageState
state_of s =
    if text_eq s (codes "pending")
    then some MessageState.pending
    else if text_eq s (codes "in_progress")
    then some MessageState.in_progress
    else if text_eq s (codes "completed")
    then some MessageState.completed
    else if text_eq s (codes "error")
    then some MessageState.error
    else none

unfoldable pub write_incoming : IncomingMessage → Fields
unfolding write_optional
write_incoming m = field (codes "text") (str m.text) (
    field (codes "chat_id") (str m.chat_id) (
      field (codes "user_id") (str m.user_id) (
        field (codes "message_id") (str m.message_id) (
          field (codes "platform") (str m.platform) (
            field (codes "reply_to_message_id") (write_optional m.reply_to_message_id) (
              field (codes "message_thread_id") (write_optional m.message_thread_id)
                (field (codes "username") (write_optional m.username) end)))))))

unfoldable pub read_incoming : ℕ → Fields → Option IncomingMessage
unfolding text_at lookup as_optional
read_incoming now fs = Option.bind (text_at (codes "text") fs) λ text.
    Option.bind (text_at (codes "chat_id") fs) λ chat_id.
      Option.bind (text_at (codes "user_id") fs) λ user_id.
        Option.bind (text_at (codes "message_id") fs) λ message_id.
          Option.bind (text_at (codes "platform") fs) λ platform.
            Option.bind (as_optional (lookup (codes "reply_to_message_id") fs)) λ reply.
              Option.bind (as_optional (lookup (codes "message_thread_id") fs)) λ thread.
                Option.map
                  (λ username. record {
                    text = text;
                    chat_id = chat_id;
                    user_id = user_id;
                    message_id = message_id;
                    platform = platform;
                    reply_to_message_id = reply;
                    message_thread_id = thread;
                    username = username;
                    status_message_id = none;
                    timestamp = now;
                    raw_event = none;
                  })
                  (as_optional (lookup (codes "username") fs))

module _ (isoformat : ℕ → Text) (fromisoformat : Text → Option ℕ) where
  unfoldable pub write_time : Option ℕ → Json
  write_time none = null
  write_time (some t) = str (isoformat t)

  -- `datetime.fromisoformat(value) if value else None`.
  unfoldable pub read_time : Option Text → Option (Option ℕ)
  read_time none = some none
  read_time (some s) = if is_empty s then some none else Option.map some (fromisoformat s)

  unfoldable pub to_dict : MessageNode → Fields
  unfolding write_incoming state_value write_optional write_texts write_time
  to_dict n = field (codes "node_id") (str n.node_id) (
      field (codes "incoming") (obj (write_incoming n.incoming)) (
        field (codes "status_message_id") (str n.status_message_id) (
          field (codes "state") (str (state_value n.state)) (
            field (codes "parent_id") (write_optional n.parent_id) (
              field (codes "session_id") (write_optional n.session_id) (
                field (codes "children_ids") (arr (write_texts n.children_ids)) (
                  field (codes "created_at") (str (isoformat n.created_at)) (
                    field (codes "completed_at") (write_time n.completed_at)
                      (field (codes "error_message") (write_optional n.error_message) end)))))))))

  unfoldable pub from_dict : ℕ → Fields → Option MessageNode
  unfolding read_incoming text_at lookup as_optional as_texts state_of read_time as_fields
  from_dict now fs =
      Option.bind (Option.bind (lookup (codes "incoming") fs) as_fields) λ incoming_data.
        Option.bind (read_incoming now incoming_data) λ incoming.
          Option.bind (text_at (codes "node_id") fs) λ node_id.
            Option.bind (text_at (codes "status_message_id") fs) λ status_message_id.
              Option.bind (Option.bind (text_at (codes "state") fs) state_of) λ state.
                Option.bind (as_optional (lookup (codes "parent_id") fs)) λ parent_id.
                  Option.bind (as_optional (lookup (codes "session_id") fs)) λ session_id.
                    Option.bind (as_texts (lookup (codes "children_ids") fs)) λ children_ids.
                      Option.bind (Option.bind (text_at (codes "created_at") fs) fromisoformat)
                        λ created_at.
                          Option.bind
                            (Option.bind (as_optional (lookup (codes "completed_at") fs)) read_time)
                            λ completed_at.
                              Option.map
                                (λ error_message. record {
                                  node_id = node_id;
                                  incoming = incoming;
                                  status_message_id = status_message_id;
                                  state = state;
                                  parent_id = parent_id;
                                  session_id = session_id;
                                  children_ids = children_ids;
                                  created_at = created_at;
                                  completed_at = completed_at;
                                  error_message = error_message;
                                  context = none;
                                })
                                (as_optional (lookup (codes "error_message") fs))
