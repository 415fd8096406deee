-- ===== src/Think/Slices.antt =====
-- How a cut shortens the buffer.
use claude_chakra.Prelude.{
  ℕ, zero, suc, ◌+◌, ◌-◌, ◌<◌, ◌≡◌, refl, ◌⊎◌, inl, inr, Bool, true, false, Option, none, some, [],
  ◌∷◌, length, take, drop, Text, rfind, arith, Bool-cases, ltb,
}
use claude_chakra.Think.{
  ContentType, ContentChunk, ThinkTagParser, open_tag, close_tag, chunk_of, cut, is_partial, hold,
  may_be_tag, outside_at, inside_at,
}

pub length-drop : (n : ℕ) (s : Text) → length (drop n s) ≡ length s - n
length-drop zero s = omega arith
length-drop (suc n) [] = omega arith
length-drop (suc n) (c ∷ s) = omega (arith, length-drop n s)

-- No chunk is empty.
unfoldable pub IsFull : Option ContentChunk → Type 0
IsFull none = Unit
IsFull (some c) = 0 < length c.content

chunk_of-IsFull : (type : ContentType) (s : Text) → IsFull (chunk_of type s)
unfolding chunk_of IsFull
chunk_of-IsFull type [] = tt
chunk_of-IsFull type (x ∷ s) = omega arith

-- What a round may do: it shortens the buffer, or it emits nothing and keeps it, as a part of a tag.
unfoldable pub Progress :
    (Text → Bool) → Bool → Text → Option ContentChunk × ThinkTagParser → Type 0
Progress held mode s (c, p) =
    IsFull c
    × ((length p.buffer < length s)
        ⊎ ((c ≡ none) × (p.buffer ≡ s) × (p.in_think_tag ≡ mode) × (held s ≡ true)))

cut-Progress :
    (held : Text → Bool) (was : Bool) (type : ContentType) (mode : Bool) (n skip : ℕ) (s : Text)
    → 0 < n + skip
    → 0 < length s
    → Progress held was s (cut type mode n skip s)
unfolding Progress cut
cut-Progress held was type mode n skip s h long =
    (chunk_of-IsFull type (take n s), inl (omega (arith, length-drop (n + skip) s)))

hold-Progress :
    (held : Text → Bool) (type : ContentType) (mode : Bool) (o : Option ℕ) (s : Text)
    → 0 < length s
    → Progress held mode s (hold type mode held o s)
unfolding hold
hold-Progress held type mode none s long =
    cut-Progress held mode type mode (length s) 0 s (omega arith) long
hold-Progress held type mode (some zero) s long = elim (Bool-cases (held s)) [
  | inl part ↦
      rw part
        (unfold Progress cut chunk_of in (chunk_of-IsFull type [], inr (refl, refl, refl, part)))
  | inr whole ↦ rw whole (cut-Progress held mode type mode (length s) 0 s (omega arith) long)
]
hold-Progress held type mode (some (suc n)) s long = elim (Bool-cases (held (drop (suc n) s))) [
  | inl part ↦ rw part (cut-Progress held mode type mode (suc n) 0 s (omega arith) long)
  | inr whole ↦ rw whole (cut-Progress held mode type mode (length s) 0 s (omega arith) long)
]

pub outside-Progress :
    (o c : Option ℕ) (s : Text) → 0 < length s → Progress may_be_tag false s (outside_at o c s)
unfolding outside_at
outside-Progress none none s long =
    hold-Progress may_be_tag ContentType.text false (rfind 60 s) s long
outside-Progress none (some c) s long =
    cut-Progress may_be_tag false ContentType.text false c (length close_tag) s (omega arith) long
outside-Progress (some o) none s long =
    cut-Progress may_be_tag false ContentType.text true o (length open_tag) s (omega arith) long
outside-Progress (some o) (some c) s long = elim (Bool-cases (ltb c o)) [
  | inl before ↦ rw before (
      cut-Progress may_be_tag false ContentType.text false c (length close_tag) s (omega arith)
        long)
  | inr after ↦
      rw after (
        cut-Progress may_be_tag false ContentType.text true o (length open_tag) s (omega arith)
          long)
]

pub inside-Progress :
    (c : Option ℕ) (s : Text)
    → 0 < length s
    → Progress (is_partial close_tag) true s (inside_at c s)
unfolding inside_at
inside-Progress none s long =
    hold-Progress (is_partial close_tag) ContentType.thinking true (rfind 60 s) s long
inside-Progress (some c) s long =
    cut-Progress (is_partial close_tag) true ContentType.thinking false c (length close_tag) s
      (omega arith) long
