-- ===== src/Tests/Windows.antt =====
-- A limiter of two requests in ten ticks.
use claude_chakra.Prelude.{ℕ, ◌≤◌, ◌≡◌, ◌↔◌, ◌+◌, refl, arith, none, some, [], ◌∷◌, count}
use claude_chakra.Prelude.Int.{pos}
use claude_chakra.SlidingWindow.{Limiter, init, round, acquire, run, settle, prune}
use claude_chakra.SlidingWindow.Window.{in_window, run-strict}
use claude_chakra.SlidingWindow.Wait.{IsValid, round-IsValid, wait_exact, acquire-total}

abbrev two_in_ten : Limiter
two_in_ten = record { rate_limit = 2; rate_window = 10; times = [] }

abbrev full : Limiter
full = record two_in_ten { times = 3 ∷ 5 ∷ [] }

full-IsValid : IsValid 6 full
full-IsValid = record {
  positive = omega arith;
  bounded = omega arith;
  past = (omega arith, (omega arith, tt));
}

run-strict_example : count (in_window 3 10) (run two_in_ten (1 ∷ 4 ∷ 4 ∷ 11 ∷ 13 ∷ 14 ∷ [])) ≤ 2
run-strict_example =
    run-strict (pos 2) (pos 10) two_in_ten (1 ∷ 4 ∷ 4 ∷ 11 ∷ 13 ∷ 14 ∷ []) 3 (unfold init in refl)
      (omega arith, (omega arith, (omega arith, (omega arith, (omega arith, (omega arith, tt))))))

wait_exact_example : ((round 13 (round 6 full).1).0 ≡ none) ↔ (6 + 7 ≤ 13)
wait_exact_example =
    wait_exact 6 13 7 full full-IsValid (unfold round settle prune in refl) (omega arith)

acquire-total_example :
    (t : ℕ) × (l : Limiter) × (acquire 2 6 full ≡ (some t, l))
    × (6 ≤ t)
    × (t ≤ 6 + 10)
    × IsValid t l
acquire-total_example = acquire-total 6 full full-IsValid

round-IsValid_example : IsValid 15 (round 15 full).1
round-IsValid_example = round-IsValid 6 full full-IsValid 15 (omega arith)
