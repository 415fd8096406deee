-- ===== src/Tests/Conversations.antt =====
-- A root with one answer below it, and a queue of two messages.
use mathlib.Core.Option
use claude_chakra.Prelude.{
  ◌≡◌, refl, none, some, List, [], ◌∷◌, codes, text_eq, get_key, set_key, has_key, any, filter,
}
use claude_chakra.Trees.Queue.{SnapshotQueue, contains, discard}
use claude_chakra.Trees.Indexed.{IsIndexed, IsDistinct}
use claude_chakra.Trees.Fifo.{
  Op, add, remove, take, perform_list, answers, list_answers, AddsNew, answers-list_answers,
}
use claude_chakra.Trees.Node.{MessageState, IncomingMessage, MessageNode, new_node}
use claude_chakra.Trees.Tree.{
  MessageTree, new_tree, add_node, update, update_in, update_state, enqueue,
}
use claude_chakra.Trees.Linked.{IsLinked}
use claude_chakra.Trees.Added.{IsAdded, add_node-adds}
use claude_chakra.Trees.History.{
  new_tree-IsLinked, Reach, starts, goes_on, adds, updates, Reach-IsLinked,
}

abbrev ops : List Op
ops = add (codes "b") ∷ remove (codes "a") ∷ take ∷ take ∷ []

abbrev waiting : SnapshotQueue
waiting = record { deque = codes "a" ∷ []; set = codes "a" ∷ [] }

waiting-IsIndexed : IsIndexed waiting
unfolding IsDistinct contains any
waiting-IsIndexed = record { same = λ x. refl; distinct = (refl, tt) }

answers-list_answers_example : answers ops waiting ≡ list_answers ops (codes "a" ∷ [])
unfolding AddsNew perform_list contains discard filter any text_eq
answers-list_answers_example = answers-list_answers ops waiting waiting-IsIndexed (refl, tt)

abbrev pub message : IncomingMessage
message = record {
  text = codes "hi";
  chat_id = codes "c";
  user_id = codes "u";
  message_id = codes "m1";
  platform = codes "telegram";
  reply_to_message_id = none;
  message_thread_id = none;
  username = none;
  status_message_id = none;
  timestamp = 0;
  raw_event = none;
}

abbrev pub root : MessageNode
root = new_node 1 (codes "m1") message (codes "s1") none

abbrev pub start : MessageTree
start = new_tree root

abbrev pub grown : MessageTree
grown = record start {
  nodes =
      (codes "m1", record root { children_ids = codes "m2" ∷ [] })
      ∷ (codes "m2", new_node 2 (codes "m2") message (codes "s2") (some (codes "m1")))
      ∷ [];
  status_to_node = (codes "s1", codes "m1") ∷ (codes "s2", codes "m2") ∷ [];
}

pub add_node_result : add_node 2 (codes "m2") message (codes "s2") (codes "m1") start ≡ some grown
unfolding add_node has_key get_key set_key update update_in text_eq
add_node_result = refl

pub start-IsLinked : IsLinked start
start-IsLinked = new_tree-IsLinked root refl refl

add_node-adds_example :
    IsLinked grown
    × IsAdded
        (new_node 2 (codes "m2") message (codes "s2") (some (codes "m1")))
        (codes "m2")
        (codes "s2")
        (codes "m1")
        start
        grown
unfolding get_key text_eq
add_node-adds_example =
    add_node-adds 2 (codes "m2") message (codes "s2") (codes "m1") start grown refl refl
      add_node_result start-IsLinked

abbrev pub finished : MessageTree
finished = update_state 5 (codes "m1") MessageState.completed (some (codes "session")) none grown

pub history : Reach root finished
unfolding get_key text_eq
history =
    goes_on
      (goes_on starts (
        adds start grown 2 (codes "m2") message (codes "s2") (codes "m1") refl refl
          add_node_result))
      (updates grown 5 (codes "m1") MessageState.completed (some (codes "session")) none)

Reach-IsLinked_example : IsLinked finished
Reach-IsLinked_example = Reach-IsLinked root finished refl refl history

-- One node waits, and the other does not.
abbrev waits : MessageTree
waits = (enqueue (codes "m2") grown).1
