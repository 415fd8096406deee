-- ===== src/Tests/Updates.antt =====
-- Three updates of two messages.
use claude_chakra.Prelude.{◌≡◌, true, false, List, [], ◌∷◌, codes}
use claude_chakra.Limiter.{empty_queue}
use claude_chakra.Limiter.Compaction.{Op, put_task, take, taken, taken_of_list, taken-taken_of_list}

abbrev updates : List Op
updates =
    put_task 1 (11 ∷ []) (codes "a") false
    ∷ put_task 2 (12 ∷ []) (codes "b") true
    ∷ put_task 3 (13 ∷ []) (codes "a") false
    ∷ take
    ∷ take
    ∷ take
    ∷ []

taken-taken_of_list_example : taken updates empty_queue ≡ taken_of_list updates []
taken-taken_of_list_example = taken-taken_of_list updates
