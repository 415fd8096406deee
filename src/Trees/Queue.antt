-- ===== src/Trees/Queue.antt =====
-- messaging/trees/data.py: `_SnapshotQueue`. The set is a list in which only membership counts.
use claude_chakra.Prelude.{
  ℕ, Bool, true, false, not, Option, none, some, List, [], ◌∷◌, ◌++◌, if◌then◌else◌, length, filter,
  any, Text, text_eq,
}

pub record SnapshotQueue : Type 0 where
  pub deque : List Text
  pub set : List Text

abbrev pub new_queue : SnapshotQueue
new_queue = record { deque = []; set = [] }

unfoldable pub contains : Text → List Text → Bool
contains x = any (λ y. text_eq y x)

unfoldable pub discard : Text → List Text → List Text
discard x = filter (λ y. not (text_eq y x))

abbrev pub put : Text → SnapshotQueue → SnapshotQueue
put item q = record { deque = q.deque ++ item ∷ []; set = item ∷ q.set }

unfoldable pub popped : List Text → SnapshotQueue → Option (Text × SnapshotQueue)
unfolding discard
popped [] q = none
popped (item ∷ rest) q = some (item, record { deque = rest; set = discard item q.set })

-- `none` is asyncio.QueueEmpty.
unfoldable pub get_nowait : SnapshotQueue → Option (Text × SnapshotQueue)
unfolding popped
get_nowait q = popped q.deque q

abbrev pub qsize : SnapshotQueue → ℕ
qsize q = length q.deque

abbrev pub get_snapshot : SnapshotQueue → List Text
get_snapshot q = q.deque

unfoldable pub remove_if_present : Text → SnapshotQueue → Bool × SnapshotQueue
unfolding contains discard
remove_if_present item q =
    if contains item q.set
    then (true, record { deque = discard item q.deque; set = discard item q.set })
    else (false, q)
