-- ===== src/Tests/Stores.antt =====
-- A tree of one node, written and read back.
use mathlib.Core.Option
use claude_chakra.Prelude.{
  ℕ, ◌+◌, ◌≡◌, refl, some, none, [], ◌∷◌, codes, Text, Option, get_key, text_eq, is_empty,
}
use claude_chakra.Trees.Node.{MessageState, IncomingMessage, MessageNode}
use claude_chakra.Trees.Tree.{MessageTree, new_tree}
use claude_chakra.Trees.Form.{to_dict, from_dict}
use claude_chakra.Trees.RoundTrip.{from_dict-to_dict, restored}
use claude_chakra.Trees.Store.{tree_to_dict, tree_from_dict}
use claude_chakra.Trees.Restore.{IsKeyed, tree_from_dict-to_dict}

abbrev iso : ℕ → Text
iso t = t ∷ []

abbrev from_iso : Text → Option ℕ
from_iso (t ∷ []) = some t
from_iso _ = none

abbrev clock : Text → ℕ
clock [] = 20
clock (c ∷ cs) = 20 + c

abbrev message : IncomingMessage
message = record {
  text = codes "hi";
  chat_id = codes "c";
  user_id = codes "u";
  message_id = codes "m1";
  platform = codes "telegram";
  reply_to_message_id = none;
  message_thread_id = some (codes "7");
  username = none;
  status_message_id = some (codes "s0");
  timestamp = 2;
  raw_event = some 11;
}

abbrev node : MessageNode
node = record {
  node_id = codes "m1";
  incoming = message;
  status_message_id = codes "s1";
  state = MessageState.completed;
  parent_id = none;
  session_id = some (codes "session");
  children_ids = [];
  created_at = 3;
  completed_at = some 9;
  error_message = none;
  context = some 12;
}

from_dict-to_dict_example :
    from_dict iso from_iso 20 (to_dict iso from_iso node) ≡ some (restored 20 node)
unfolding is_empty
from_dict-to_dict_example = from_dict-to_dict iso from_iso 20 node (λ t. refl) (λ t. refl)

tree_from_dict-to_dict_example :
    (t : MessageTree) × (tree_from_dict iso from_iso clock
        (tree_to_dict iso from_iso clock (new_tree node))
      ≡ some t)
    × (t.root_id ≡ codes "m1")
    × ((x : Text)
        → get_key x t.nodes ≡ Option.map (restored (clock x)) (get_key x (new_tree node).nodes))
unfolding is_empty IsKeyed get_key text_eq
tree_from_dict-to_dict_example =
    tree_from_dict-to_dict iso from_iso (λ t. refl) (λ t. refl) clock (new_tree node) node
      (refl, refl, tt) refl refl
