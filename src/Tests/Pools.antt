-- ===== src/Tests/Pools.antt =====
-- The key pool of a provider with two keys.
use claude_chakra.Prelude.{
  ℕ, ◌<◌, ◌≢◌, ◌≡◌, refl, arith, true, false, none, some, get_elem?, [], ◌∷◌, codes, Text, text_eq,
  ◌↔◌,
}
use claude_chakra.KeyPool.{
  KeyPool, next_live_key, report_rate_limit, scan, or_soonest, is_live, applied,
  remaining_live_keys, all_cooling, get_cooldown, current,
}
use claude_chakra.KeyPool.Laws.{IsBest, next_live_key-IsBest}
use claude_chakra.KeyPool.Rotation.{
  is_live-report, next_live_key-avoids, handed, handed-in_turn, handed-each, remaining-eq-zero_iff,
  AllLive,
}

abbrev pool : KeyPool
pool = record {
  keys = codes "k1" ∷ codes "k2" ∷ [];
  scope = codes "groq";
  cooldown_until = (codes "k1", 70) ∷ [];
  cursor = 4;
  default_cooldown = 60;
}

abbrev fresh : KeyPool
fresh = record pool { cooldown_until = [] }

fresh-AllLive : AllLive 5 fresh
unfolding is_live get_cooldown
fresh-AllLive j h = refl

next_live_key-IsBest_example : (k : Text) × ((next_live_key 10 pool).0 ≡ some k) × IsBest pool 10 k
next_live_key-IsBest_example = next_live_key-IsBest 10 pool (omega arith)

handed-in_turn_example : get_elem? (handed 6 5 fresh) 3 ≡ some (some (codes "k2"))
unfolding current
handed-in_turn_example = handed-in_turn 6 5 3 fresh (omega arith) fresh-AllLive (omega arith)

handed-each_example :
    (i : ℕ) × (i < 2) × (get_elem? (handed 2 5 fresh) i ≡ some (some (codes "k2")))
handed-each_example = handed-each 5 1 fresh fresh-AllLive (omega arith)

is_live-report_example :
    is_live (report_rate_limit 5 (codes "k2") none fresh) 64 (codes "k2") ≡ false
unfolding text_eq applied
is_live-report_example = is_live-report 5 64 (codes "k2") (codes "k2") none fresh

next_live_key-avoids_example : codes "k1" ≢ codes "k2"
unfolding next_live_key report_rate_limit scan or_soonest is_live current get_cooldown text_eq
    applied
next_live_key-avoids_example =
    next_live_key-avoids 5 20 0 (codes "k2") (codes "k1") none fresh (omega arith) (omega arith)
      (ground arith) (fresh-AllLive 0 (omega arith)) refl

remaining-eq-zero_iff_example : (remaining_live_keys 10 pool ≡ 0) ↔ (all_cooling 10 pool ≡ true)
remaining-eq-zero_iff_example = remaining-eq-zero_iff 10 pool
