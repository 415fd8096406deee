-- ===== src/Think/Held.antt =====
-- `feed` always comes to an end, and holds back no more than a part of a tag.
use claude_chakra.Prelude.{
  ℕ, zero, suc, ◌+◌, ◌<◌, ◌≡◌, refl, ◌⊎◌, inl, inr, Bool, true, false, Option, none, some, List, [],
  ◌∷◌, ◌++◌, ◌==◌, length, All, Text, is_empty, find, arith, Bool-cases,
}
use claude_chakra.Think.{
  ContentChunk, ThinkTagParser, open_tag, close_tag, is_partial, may_be_tag, parse, after_parse,
  loop, feed,
}
use claude_chakra.Think.Slices.{IsFull, Progress, outside-Progress, inside-Progress}

-- What may be held back outside of a <think> tag, and inside.
abbrev pub held_in : Bool → Text → Bool
held_in false s = may_be_tag s
held_in true s = is_partial close_tag s

parse-Progress :
    (mode : Bool) (s : Text)
    → 0 < length s
    → Progress (held_in mode) mode s (parse (record { buffer = s; in_think_tag = mode }))
unfolding parse
parse-Progress false s long = outside-Progress (find open_tag s) (find close_tag s) s long
parse-Progress true s long = inside-Progress (find close_tag s) s long

-- The buffer is empty, or a proper prefix of a tag.
pub IsHeld : ThinkTagParser → Type 0
IsHeld p = (p.buffer ≡ []) ⊎ (held_in p.in_think_tag p.buffer ≡ true)

-- A loop that ended well.
record Ended (r : Option (List ContentChunk × ThinkTagParser)) : Type 0 where
  chunks : List ContentChunk
  parser : ThinkTagParser
  result : r ≡ some (chunks, parser)
  full : All (λ c. 0 < length c.content) chunks
  held : IsHeld parser

after_parse-Ended :
    (mode : Bool) (s : Text) (c : Option ContentChunk) (p : ThinkTagParser)
    (rest : Option (List ContentChunk × ThinkTagParser))
    → Progress (held_in mode) mode s (c, p)
    → (length p.buffer < length s → Ended rest)
    → Ended (after_parse (length s) (c, p) rest)
unfolding after_parse Progress IsFull IsHeld
after_parse-Ended mode s (some chunk) p rest (full, inl less) later =
    let e = later less in
    record {
      chunks = chunk ∷ e.chunks;
      parser = e.parser;
      result = rw (e.result) refl;
      full = (full, e.full);
      held = e.held;
    }
after_parse-Ended mode s (some chunk) p rest (full, inr (bad, same, kept, part)) later = absurd cc
after_parse-Ended mode s none p rest (full, inl less) later =
    let differs : (length p.buffer == length s) ≡ false = ground arith in
    let e = later less in
    record {
      chunks = e.chunks;
      parser = e.parser;
      result = rw differs e.result;
      full = e.full;
      held = e.held;
    }
after_parse-Ended mode s none p rest (full, inr (_, same, kept, part)) later = record {
  chunks = [];
  parser = p;
  result =
      let equal : (length p.buffer == length s) ≡ true = rw same (ground arith) in rw equal refl;
  full = tt;
  held = inr (rw same (rw kept part));
}

after-empty : (s : Text) → is_empty s ≡ true → s ≡ []
unfolding is_empty
after-empty [] h = refl
after-empty (c ∷ s) h = cc

before_empty : (s : Text) → is_empty s ≡ false → 0 < length s
unfolding is_empty
before_empty [] h = cc
before_empty (c ∷ s) h = omega arith

loop-Ended : (fuel : ℕ) (p : ThinkTagParser) → length p.buffer < fuel → Ended (loop fuel p)
unfolding loop IsHeld
loop-Ended zero p h = absurd (omega arith)
loop-Ended (suc fuel) p h = elim (Bool-cases (is_empty p.buffer)) [
  | inl done ↦ rw done (record {
    chunks = [];
    parser = p;
    result = refl;
    full = tt;
    held = inl (after-empty p.buffer done);
  })
  | inr more ↦ rw more (
      after_parse-Ended p.in_think_tag p.buffer (parse p).0 (parse p).1 (loop fuel (parse p).1)
        (parse-Progress p.in_think_tag p.buffer (before_empty p.buffer more))
        (λ less. loop-Ended fuel (parse p).1 (omega arith)))
]

-- `feed` never runs out of rounds. It yields no empty chunk, and what it holds back is empty or a
-- proper prefix of a tag that can come next: of the closing tag inside of a <think> tag, and of either
-- tag outside.
pub feed-total :
    (content : Text) (p : ThinkTagParser)
    → (chunks : List ContentChunk) × (p' : ThinkTagParser) × (feed content p ≡ some (chunks, p'))
      × All (λ c. 0 < length c.content) chunks
      × IsHeld p'
unfolding feed
feed-total content p =
    let e =
      loop-Ended (1 + length (p.buffer ++ content)) (record p { buffer = p.buffer ++ content })
        (omega arith) in
    (e.chunks, e.parser, e.result, e.full, e.held)
