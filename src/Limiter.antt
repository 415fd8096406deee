-- ===== src/Limiter.antt =====
-- messaging/limiter.py: the queue of `MessagingRateLimiter`, which keeps one task for each key.
--
-- A function and a future are known by numbers. What runs under the condition is one function; the
-- worker's wait while the queue is empty is a round in which nothing happens.
pub mod Keys
pub mod Compaction
use claude_chakra.Prelude.{
  ℕ, ◌+◌, ◌-◌, Bool, true, false, not, Option, none, some, List, [], ◌∷◌, ◌++◌, map, filter, any,
  if◌then◌else◌, ltb, ◌==◌, Text, codes, find, is_some, get_key, set_key, delete_key, has_key,
}

-- A function, by a number, with the futures that wait for it.
abbrev pub Entry : Type 0
Entry = ℕ × List ℕ

-- `_queue_list` and `_queue_map`.
pub record Queue : Type 0 where
  pub queue_list : List Text
  pub queue_map : List (Text × Entry)

abbrev pub empty_queue : Queue
empty_queue = record { queue_list = []; queue_map = [] }

unfoldable pub enqueue_at : ℕ → List ℕ → Text → Bool → Option Entry → Queue → Queue
unfolding set_key
enqueue_at func futures key front (some (old_func, old_futures)) q = record q {
  queue_map = set_key key (func, old_futures ++ futures) q.queue_map;
}
enqueue_at func futures key front none q = record {
  queue_list = if front then key ∷ q.queue_list else q.queue_list ++ key ∷ [];
  queue_map = set_key key (func, futures) q.queue_map;
}

-- `_enqueue_internal_multi`.
unfoldable pub enqueue_internal_multi : ℕ → List ℕ → Text → Bool → Queue → Queue
unfolding enqueue_at get_key
enqueue_internal_multi func futures key front q =
    enqueue_at func futures key front (get_key key q.queue_map) q

-- What the worker finds: nothing, a task, or a key without a task, which is a KeyError.
pub data Taken : Type 0 where
  waits : Taken
  task : Text → Entry → Taken
  key_error : Taken

unfoldable pub pop_entry : Text → List Text → Option Entry → Queue → Taken × Queue
unfolding delete_key
pop_entry key rest none q = (key_error, record q { queue_list = rest })
pop_entry key rest (some e) q =
    (task key e, record { queue_list = rest; queue_map = delete_key key q.queue_map })

unfoldable pub pop_first : List Text → Queue → Taken × Queue
unfolding pop_entry get_key
pop_first [] q = (waits, q)
pop_first (key ∷ rest) q = pop_entry key rest (get_key key q.queue_map) q

-- The part of the worker's loop under the condition.
unfoldable pub take_task : Queue → Taken × Queue
unfolding pop_first
take_task q = pop_first q.queue_list q
