-- ===== src/Fallback/Wire.antt =====
-- The type of an event is read back from its text.
use claude_chakra.Prelude.{
  ℕ, ◌≡◌, refl, ◌∙◌, ap, none, some, [], ◌∷◌, ◌++◌, length, take, Text, codes, strip, lstrip,
  is_space, find, starts_with, arith, inl, inr, Bool-cases, ◌==◌,
}
use claude_chakra.Sse.Event.{format_sse_event}
use claude_chakra.Fallback.{sse_event_type, upto}

find-append :
    (c : ℕ) (s r : Text) → find (c ∷ []) s ≡ none → find (c ∷ []) (s ++ c ∷ r) ≡ some (length s)
unfolding find starts_with
find-append c [] r h = ground arith
find-append c (x ∷ s) r h = elim (Bool-cases (c == x)) [
  | inl same ↦ absurd (ground arith)
  | inr apart ↦ let ih = find-append c s r (ground arith) in ground arith
]

take-append : (s r : Text) → take (length s) (s ++ r) ≡ s
take-append [] r = refl
take-append (x ∷ s) r = ap (λ t. x ∷ t) (take-append s r)

find_after_blank : (s : Text) → find (codes "\n") s ≡ none → find (codes "\n") (32 ∷ s) ≡ none
unfolding find starts_with
find_after_blank s h = rw h refl

strip_blank : (s : Text) → strip (32 ∷ s) ≡ strip s
unfolding strip lstrip is_space
strip_blank s = refl

first_line :
    (s r : Text) → find (10 ∷ []) s ≡ none → upto (find (10 ∷ []) (s ++ 10 ∷ r)) (s ++ 10 ∷ r) ≡ s
unfolding upto
first_line s r h = rw (find-append 10 s r h) (take-append s (10 ∷ r))

-- The type read from an event's text is the one that it was written with, if that has no newline
-- and no white space at its ends.
pub sse_event_type-format_sse_event :
    (name data_text : Text)
    → find (codes "\n") name ≡ none
    → strip name ≡ name
    → sse_event_type (format_sse_event name data_text) ≡ name
unfolding sse_event_type upto starts_with
sse_event_type-format_sse_event name data_text line trimmed =
    let tail = codes "data: " ++ (data_text ++ codes "\n\n") in
    ap strip (first_line (32 ∷ name) tail (find_after_blank name line))
    ∙ (strip_blank name ∙ trimmed)
