-- ===== src/Trees/Fifo.antt =====
-- The queue against its specification: a list of items, each at most once. The set only answers
-- membership, so the queue behaves as the list alone would.
use claude_chakra.Prelude.{
  ◌≡◌, refl, sym, ◌∙◌, ap, Bool, false, Option, none, some, List, [], ◌∷◌, ◌++◌, Text,
}
use mathlib.Core.Path.{subst}
use claude_chakra.Trees.Queue.{
  SnapshotQueue, contains, discard, put, get_nowait, popped, remove_if_present,
}
use claude_chakra.Trees.Indexed.{
  IsIndexed, put-IsIndexed, remove_if_present-IsIndexed, popped-IsIndexed,
}

pub data Op : Type 0 where
  add remove : Text → Op
  take : Op

-- What an operation returns: nothing, the item taken if there was one, or whether it was removed.
pub data Answer : Type 0 where
  done : Answer
  taken : Option Text → Answer
  removed : Bool → Answer

take_from : SnapshotQueue → Option (Text × SnapshotQueue) → Answer × SnapshotQueue
take_from q none = (taken none, q)
take_from q (some (x, q')) = (taken (some x), q')

pub perform : Op → SnapshotQueue → Answer × SnapshotQueue
unfolding take_from
perform (add x) q = (done, put x q)
perform (remove x) q = let (b, q') = remove_if_present x q in (removed b, q')
perform take q = take_from q (get_nowait q)

-- The same operations on a list alone.
unfoldable pub perform_list : Op → List Text → Answer × List Text
perform_list (add x) xs = (done, xs ++ x ∷ [])
perform_list (remove x) xs = (removed (contains x xs), discard x xs)
perform_list take [] = (taken none, [])
perform_list take (x ∷ xs) = (taken (some x), xs)

pub answers : List Op → SnapshotQueue → List Answer
answers [] q = []
answers (op ∷ ops) q = let (a, q') = perform op q in a ∷ answers ops q'

pub list_answers : List Op → List Text → List Answer
list_answers [] xs = []
list_answers (op ∷ ops) xs = let (a, xs') = perform_list op xs in a ∷ list_answers ops xs'

-- Only items that do not wait already are added.
unfoldable pub AddsNew : List Op → List Text → Type 0
unfolding perform_list
AddsNew [] xs = Unit
AddsNew (add x ∷ ops) xs = (contains x xs ≡ false) × AddsNew ops (xs ++ x ∷ [])
AddsNew (op ∷ ops) xs = AddsNew ops (perform_list op xs).1

take-refines :
    (xs set : List Text)
    → IsIndexed (record { deque = xs; set = set })
    → (r : SnapshotQueue) × (perform take (record { deque = xs; set = set })
        ≡ ((perform_list take xs).0, r))
      × (r.deque ≡ (perform_list take xs).1)
      × IsIndexed r
unfolding perform perform_list get_nowait popped take_from
take-refines [] set h = (record { deque = []; set = set }, refl, refl, h)
take-refines (x ∷ xs) set h =
    (record { deque = xs; set = discard x set }, refl, refl, popped-IsIndexed x xs set h)

perform-refines :
    (op : Op) (q : SnapshotQueue)
    → AddsNew (op ∷ []) q.deque
    → IsIndexed q
    → (r : SnapshotQueue) × (perform op q ≡ ((perform_list op q.deque).0, r))
      × (r.deque ≡ (perform_list op q.deque).1)
      × IsIndexed r
unfolding perform perform_list AddsNew get_nowait popped
perform-refines (add x) q new h = (put x q, refl, refl, put-IsIndexed x q new.0 h)
perform-refines (remove x) q new h =
    let (r, e, d, h') = remove_if_present-IsIndexed x q h in (r, rw e refl, d, h')
perform-refines take q new h = take-refines q.deque q.set h

AddsNew-first :
    (op : Op) (ops : List Op) (xs : List Text) → AddsNew (op ∷ ops) xs → AddsNew (op ∷ []) xs
unfolding AddsNew
AddsNew-first (add x) ops xs h = (h.0, tt)
AddsNew-first (remove x) ops xs h = tt
AddsNew-first take ops xs h = tt

AddsNew-rest :
    (op : Op) (ops : List Op) (xs : List Text)
    → AddsNew (op ∷ ops) xs
    → AddsNew ops (perform_list op xs).1
unfolding AddsNew perform_list
AddsNew-rest (add x) ops xs h = h.1
AddsNew-rest (remove x) ops xs h = h
AddsNew-rest take ops xs h = h

-- The queue answers any sequence of operations as the list alone does, if no item is added that
-- still waits.
pub answers-list_answers :
    (ops : List Op) (q : SnapshotQueue)
    → IsIndexed q
    → AddsNew ops q.deque
    → answers ops q ≡ list_answers ops q.deque
unfolding answers list_answers
answers-list_answers [] q h new = refl
answers-list_answers (op ∷ ops) q h new =
    let (r, e, d, h') = perform-refines op q (AddsNew-first op ops q.deque new) h in
    let later = subst (AddsNew ops) (sym d) (AddsNew-rest op ops q.deque new) in
    rw e (
      ap (λ rest. (perform_list op q.deque).0 ∷ rest)
        (answers-list_answers ops r h' later ∙ ap (list_answers ops) d))
