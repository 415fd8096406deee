-- ===== src/Trees/RoundTrip.antt =====
-- A node is read back from its dictionary.
use mathlib.Core.Option
use claude_chakra.Prelude.{
  ℕ, ◌≡◌, refl, false, Option, none, some, List, [], ◌∷◌, Text, text_eq, is_empty,
}
use claude_chakra.Trees.Node.{MessageState, IncomingMessage, MessageNode}
use claude_chakra.Trees.Form.{
  lookup, as_text, as_fields, as_optional, texts, as_texts, text_at, write_optional, write_texts,
  state_value, state_of, write_incoming, read_incoming, write_time, read_time, to_dict, from_dict,
}

optional-write : (o : Option Text) → as_optional (some (write_optional o)) ≡ some o
unfolding as_optional write_optional
optional-write none = refl
optional-write (some s) = refl

texts-write : (ss : List Text) → texts (write_texts ss) ≡ some ss
unfolding texts write_texts as_text Option.bind
texts-write [] = refl
texts-write (s ∷ ss) = rw (texts-write ss) refl

state_of-value : (s : MessageState) → state_of (state_value s) ≡ some s
unfolding state_of state_value text_eq
state_of-value MessageState.pending = refl
state_of-value MessageState.in_progress = refl
state_of-value MessageState.completed = refl
state_of-value MessageState.error = refl

-- A message as it is read back at the time `now`: the dictionary keeps neither its status message,
-- nor its timestamp, nor its raw event.
abbrev pub kept_of : ℕ → IncomingMessage → IncomingMessage
kept_of now m = record m { status_message_id = none; timestamp = now; raw_event = none }

abbrev pub restored : ℕ → MessageNode → MessageNode
restored now n = record n { incoming = kept_of now n.incoming; context = none }

incoming-write :
    (now : ℕ) (m : IncomingMessage) → read_incoming now (write_incoming m) ≡ some (kept_of now m)
unfolding read_incoming write_incoming text_at lookup text_eq as_text Option.bind
incoming-write now m =
    rw (optional-write m.reply_to_message_id)
      (rw (optional-write m.message_thread_id) (rw (optional-write m.username) refl))

module _ (isoformat : ℕ → Text) (fromisoformat : Text → Option ℕ) where
  time-write :
      ((t : ℕ) → fromisoformat (isoformat t) ≡ some t)
      → ((t : ℕ) → is_empty (isoformat t) ≡ false)
      → (o : Option ℕ)
      → Option.bind
          (as_optional (some (write_time isoformat fromisoformat o)))
          (read_time isoformat fromisoformat)
        ≡ some o
  unfolding as_optional write_time read_time Option.bind
  time-write reads full none = refl
  time-write reads full (some t) = rw (full t) (rw (reads t) refl)

  -- Where `fromisoformat` reads what `isoformat` writes, and that is never empty, `from_dict` gives
  -- back the node that `to_dict` wrote, but for four fields: its context is None, and its incoming
  -- message has no status message, no raw event and the time of the reading as its timestamp.
  pub from_dict-to_dict :
      (now : ℕ) (n : MessageNode)
      → ((t : ℕ) → fromisoformat (isoformat t) ≡ some t)
      → ((t : ℕ) → is_empty (isoformat t) ≡ false)
      → from_dict isoformat fromisoformat now (to_dict isoformat fromisoformat n)
        ≡ some (restored now n)
  unfolding from_dict to_dict text_at lookup text_eq as_text as_fields as_texts Option.bind
  from_dict-to_dict now n reads full = rw (incoming-write now n.incoming) (
      rw (state_of-value n.state) (
        rw (optional-write n.parent_id) (
          rw (optional-write n.session_id) (
            rw (texts-write n.children_ids) (
              rw (reads n.created_at) (
                rw (time-write reads full n.completed_at)
                  (rw (optional-write n.error_message) refl)))))))
