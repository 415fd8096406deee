-- ===== src/Think.antt =====
-- core/anthropic/thinking.py: `ThinkTagParser`, which takes <think> tags out of streamed text. A tag
-- may be split over two chunks, so the end of the text is held back where it may begin a tag.
pub mod Slices
pub mod Held
use mathlib.Core.Option
use claude_chakra.Prelude.{
  ℕ, zero, suc, ◌+◌, Bool, true, false, ◌&&◌, ◌||◌, Option, none, some, List, [], ◌∷◌, ◌++◌, ltb,
  ◌==◌, if◌then◌else◌, length, take, drop, Text, codes, starts_with, find, rfind, is_empty,
}

pub data ContentType : Type 0 where
  text thinking : ContentType

pub record ContentChunk : Type 0 where
  pub type : ContentType
  pub content : Text

pub record ThinkTagParser : Type 0 where
  pub buffer : Text
  pub in_think_tag : Bool

abbrev pub open_tag : Text
open_tag = codes "<think>"

abbrev pub close_tag : Text
close_tag = codes "</think>"

-- A chunk is yielded only if it has content.
unfoldable pub chunk_of : ContentType → Text → Option ContentChunk
chunk_of type [] = none
chunk_of type (c ∷ s) = some (record { type = type; content = c ∷ s })

-- The text up to `n` leaves the buffer, and the tag of `skip` characters after it too.
unfoldable pub cut : ContentType → Bool → ℕ → ℕ → Text → Option ContentChunk × ThinkTagParser
unfolding chunk_of
cut type mode n skip s =
    (chunk_of type (take n s), record { buffer = drop (n + skip) s; in_think_tag = mode })

-- A proper prefix of a tag.
unfoldable pub is_partial : Text → Text → Bool
is_partial tag s = ltb (length s) (length tag) && starts_with s tag

-- Without a tag: all is emitted but a partial tag from the last "<" on.
unfoldable pub hold :
    ContentType → Bool → (Text → Bool) → Option ℕ → Text → Option ContentChunk × ThinkTagParser
unfolding cut
hold type mode partial none s = cut type mode (length s) 0 s
hold type mode partial (some n) s =
    if partial (drop n s) then cut type mode n 0 s else cut type mode (length s) 0 s

abbrev pub may_be_tag : Text → Bool
may_be_tag s = is_partial open_tag s || is_partial close_tag s

-- `_parse_outside_think`, by where the tags begin. A closing tag with no opening one is dropped.
unfoldable pub outside_at : Option ℕ → Option ℕ → Text → Option ContentChunk × ThinkTagParser
unfolding hold is_partial
outside_at none none s = hold ContentType.text false may_be_tag (rfind 60 s) s
outside_at none (some c) s = cut ContentType.text false c (length close_tag) s
outside_at (some o) none s = cut ContentType.text true o (length open_tag) s
outside_at (some o) (some c) s =
    if ltb c o
    then cut ContentType.text false c (length close_tag) s
    else cut ContentType.text true o (length open_tag) s

unfoldable pub inside_at : Option ℕ → Text → Option ContentChunk × ThinkTagParser
unfolding hold is_partial
inside_at none s = hold ContentType.thinking true (is_partial close_tag) (rfind 60 s) s
inside_at (some c) s = cut ContentType.thinking false c (length close_tag) s

unfoldable pub parse : ThinkTagParser → Option ContentChunk × ThinkTagParser
unfolding outside_at inside_at
parse p =
    if p.in_think_tag
    then inside_at (find close_tag p.buffer) p.buffer
    else outside_at (find open_tag p.buffer) (find close_tag p.buffer) p.buffer

unfoldable pub after_parse :
    ℕ
    → Option ContentChunk × ThinkTagParser
    → Option (List ContentChunk × ThinkTagParser)
    → Option (List ContentChunk × ThinkTagParser)
after_parse len (some chunk, p) rest = Option.map (λ r. (chunk ∷ r.0, r.1)) rest
after_parse len (none, p) rest = if length p.buffer == len then some ([], p) else rest

-- The loop of `feed`, on fuel; `none` says that it ran out.
unfoldable pub loop : ℕ → ThinkTagParser → Option (List ContentChunk × ThinkTagParser)
unfolding parse after_parse
loop zero p = none
loop (suc fuel) p =
    let rest = loop fuel (parse p).1 in
    if is_empty p.buffer then some ([], p) else after_parse (length p.buffer) (parse p) rest

unfoldable pub feed : Text → ThinkTagParser → Option (List ContentChunk × ThinkTagParser)
unfolding loop
feed content p = let s = p.buffer ++ content in loop (1 + length s) (record p { buffer = s })

unfoldable pub flush : ThinkTagParser → Option ContentChunk × ThinkTagParser
unfolding chunk_of
flush p = (
  chunk_of (if p.in_think_tag then ContentType.thinking else ContentType.text) p.buffer,
  record p { buffer = [] },
)
