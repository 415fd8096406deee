-- ===== src/Limiter/Compaction.antt =====
-- The queue against its specification: a list of tasks, one for each key, in which a task that comes
-- again takes the place of the one that waits.
use claude_chakra.Prelude.{
  ℕ, ◌≡◌, refl, sym, ◌∙◌, ap, inl, inr, Bool, true, false, Option, none, some, List, [], ◌∷◌, ◌++◌,
  if◌then◌else◌, Text, text_eq, text_eq_refl, text_eq_sound, get_key, set_key, delete_key,
  get_key-set_key, get_key-delete_key, Option-cases, Bool-cases,
}
use claude_chakra.Limiter.{
  Entry, Queue, empty_queue, enqueue_at, enqueue_internal_multi, Taken, waits, task, pop_entry,
  pop_first, take_task,
}
use claude_chakra.Limiter.Keys.{
  HasUniqueKeys, keys, keys-append, get_key-here, get_key-there, get_key-append,
  HasUniqueKeys-append, keys-set_key, HasUniqueKeys-set_key,
}

pub data Op : Type 0 where
  put_task : ℕ → List ℕ → Text → Bool → Op
  take : Op

-- What the worker takes, in order.
pub taken : List Op → Queue → List Taken
unfolding enqueue_internal_multi take_task
taken [] q = []
taken (put_task func futures key front ∷ ops) q =
    taken ops (enqueue_internal_multi func futures key front q)
taken (take ∷ ops) q = let (x, q') = take_task q in x ∷ taken ops q'

abbrev pub Tasks : Type 0
Tasks = List (Text × Entry)

unfoldable pub place : ℕ → List ℕ → Text → Bool → Option Entry → Tasks → Tasks
unfolding set_key
place func futures key front (some (old_func, old_futures)) ts =
    set_key key (func, old_futures ++ futures) ts
place func futures key front none ts =
    if front then (key, (func, futures)) ∷ ts else ts ++ (key, (func, futures)) ∷ []

-- The same operations on the list of tasks.
pub taken_of_list : List Op → Tasks → List Taken
unfolding place get_key
taken_of_list [] ts = []
taken_of_list (put_task func futures key front ∷ ops) ts =
    taken_of_list ops (place func futures key front (get_key key ts) ts)
taken_of_list (take ∷ ops) [] = waits ∷ taken_of_list ops []
taken_of_list (take ∷ ops) ((key, e) ∷ ts) = task key e ∷ taken_of_list ops ts

-- The deque has the keys of the tasks, in order, and the dictionary has the tasks.
record Represents (q : Queue) (ts : Tasks) : Type 0 where
  order : q.queue_list ≡ keys ts
  same : (k : Text) → get_key k q.queue_map ≡ get_key k ts
  unique : HasUniqueKeys ts

-- A task with a new key, at the front or at the end.
new-Represents :
    (func : ℕ) (futures : List ℕ) (key : Text) (front : Bool) (q : Queue) (ts : Tasks)
    → Represents q ts
    → get_key key ts ≡ none
    → Represents (enqueue_at func futures key front none q) (place func futures key front none ts)
unfolding enqueue_at place get_key HasUniqueKeys keys
new-Represents func futures key true q ts h new = record {
  order = ap (λ ks. key ∷ ks) h.order;
  same = λ k.
      get_key-set_key key k (func, futures) q.queue_map
      ∙ ap (λ o. if text_eq key k then some (func, futures) else o) (h.same k);
  unique = (new, h.unique);
}
new-Represents func futures key false q ts h new = record {
  order = ap (λ ks. ks ++ key ∷ []) h.order ∙ sym (keys-append key (func, futures) ts);
  same = λ k.
      get_key-set_key key k (func, futures) q.queue_map
      ∙ (ap (λ o. if text_eq key k then some (func, futures) else o) (h.same k)
          ∙ sym (get_key-append k key (func, futures) ts new));
  unique = HasUniqueKeys-append key (func, futures) ts new h.unique;
}

put_task-Represents :
    (func : ℕ) (futures : List ℕ) (key : Text) (front : Bool) (q : Queue) (ts : Tasks)
    → Represents q ts
    → Represents
        (enqueue_internal_multi func futures key front q)
        (place func futures key front (get_key key ts) ts)
unfolding enqueue_internal_multi enqueue_at place
put_task-Represents func futures key front q ts h = elim (Option-cases (get_key key ts)) [
  | inr (old, found) ↦ rw (h.same key ∙ found) (
      rw found (record {
        order = h.order ∙ sym (keys-set_key key (func, old.1 ++ futures) old ts found);
        same = λ k.
            get_key-set_key key k (func, old.1 ++ futures) q.queue_map
            ∙ (ap (λ o. if text_eq key k then some (func, old.1 ++ futures) else o) (h.same k)
                ∙ sym (get_key-set_key key k (func, old.1 ++ futures) ts));
        unique = HasUniqueKeys-set_key key (func, old.1 ++ futures) old ts found h.unique;
      }))
  | inl new ↦ rw (h.same key ∙ new) (rw new (new-Represents func futures key front q ts h new))
]

take-Represents :
    (key : Text) (e : Entry) (q : Queue) (ts : Tasks)
    → Represents q ((key, e) ∷ ts)
    → (q' : Queue) × (take_task q ≡ (task key e, q')) × Represents q' ts
unfolding take_task pop_first pop_entry HasUniqueKeys keys
take-Represents key e q ts h =
    let there = h.same key ∙ get_key-here key key e ts (text_eq_refl key) in
    (
      record { queue_list = keys ts; queue_map = delete_key key q.queue_map },
      ap (λ ks. pop_first ks q) h.order ∙ ap (λ o. pop_entry key (keys ts) o q) there,
      record {
        order = refl;
        same = λ k. get_key-delete_key key k q.queue_map ∙ elim (Bool-cases (text_eq key k)) [
          | inl same ↦
              rw same (sym (sym (ap (λ j. get_key j ts) (text_eq_sound key k same)) ∙ h.unique.0))
          | inr apart ↦ rw apart (h.same k ∙ get_key-there key k e ts apart)
        ];
        unique = h.unique.1;
      },
    )

taken-Represents :
    (ops : List Op) (q : Queue) (ts : Tasks) → Represents q ts → taken ops q ≡ taken_of_list ops ts
unfolding taken taken_of_list take_task pop_first keys
taken-Represents [] q ts h = refl
taken-Represents (put_task func futures key front ∷ ops) q ts h =
    taken-Represents ops (enqueue_internal_multi func futures key front q)
      (place func futures key front (get_key key ts) ts)
      (put_task-Represents func futures key front q ts h)
taken-Represents (take ∷ ops) q [] h =
    ap (λ ks. (pop_first ks q).0 ∷ taken ops (pop_first ks q).1) h.order
    ∙ ap (λ xs. waits ∷ xs) (taken-Represents ops q [] h)
taken-Represents (take ∷ ops) q ((key, e) ∷ ts) h =
    let (q', got, rest) = take-Represents key e q ts h in
    ap (λ p. p.0 ∷ taken ops p.1) got ∙ ap (λ xs. task key e ∷ xs) (taken-Represents ops q' ts rest)

-- Whatever is enqueued and taken, from the empty queue on: the worker takes what the list of tasks
-- gives, with the function that was enqueued last and all the futures, and no key is without a task.
pub taken-taken_of_list : (ops : List Op) → taken ops empty_queue ≡ taken_of_list ops []
unfolding keys get_key HasUniqueKeys
taken-taken_of_list ops =
    taken-Represents ops empty_queue [] (record { order = refl; same = λ k. refl; unique = tt })
