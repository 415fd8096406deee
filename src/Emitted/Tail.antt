-- ===== src/Emitted/Tail.antt =====
-- The end that the tracker gives to a stream.
use claude_chakra.Prelude.{
  ℕ, ◌≡◌, refl, sym, ◌∙◌, ap, inl, inr, Bool, true, false, some, List, [], ◌∷◌, ◌++◌, map, any,
  is_some, is_nil, Text, is_empty, strip, Bool-cases, Option-cases, arith,
}
use claude_chakra.Prelude.Int.{ℤ, pos, eqℤ, eqℤ_iff}
use claude_chakra.Native.{has_index}
use claude_chakra.Native.Segments.{IsDistinct}
use claude_chakra.Sse.Event.{
  ContentBlock, Delta, Event, content_block_start, content_block_delta, content_block_stop,
  message_delta, message_stop,
}
use claude_chakra.Sse.Builder.{emit_error}
use claude_chakra.Sse.Contract.{
  Kind, Check, new_check, kind_at, close, is_seen, storage_kind, allows, step, steps, holds,
  is_start, is_stop, is_settled, ends_with_stop,
}
use claude_chakra.Sse.Simulation.{kind_at-close, steps-append}
use claude_chakra.Emitted.{
  Tracker, new_tracker, feed, iter_close_unclosed_blocks, iter_midstream_error_tail,
}
use claude_chakra.Sse.Endings.{ends_with_stop-append}
use claude_chakra.Emitted.Observed.{tracker-IsObserved}

-- The stops of all that is open leave nothing open.
stops-steps :
    (allow : Bool) (xs : List ℤ) (c : Check)
    → IsDistinct xs
    → ((i : ℤ) → is_some (kind_at c.open_blocks i) ≡ has_index i xs)
    → (bs : List (ℤ × Kind)) × (steps allow (map content_block_stop xs) c
        ≡ some (record c { open_blocks = bs }))
      × ((i : ℤ) → is_some (kind_at bs i) ≡ false)
unfolding steps step has_index any IsDistinct
stops-steps allow [] c dist same = (c.open_blocks, refl, same)
stops-steps allow (x ∷ xs) c dist same = elim (Option-cases (kind_at c.open_blocks x)) [
  | inl closed ↦ absurd (
      let here : has_index x (x ∷ xs) ≡ true = ground (arith, (eqℤ_iff x x).1 refl) in
      let f = sym (ap is_some closed) ∙ (same x ∙ here) in cc)
  | inr (k, there) ↦
      let next = record c { open_blocks = close x c.open_blocks } in
      let (bs, e, nothing) = stops-steps allow xs next dist.1 λ i.
        ap is_some (kind_at-close x i c.open_blocks) ∙ elim (Bool-cases (eqℤ x i)) [
          | inl here ↦
              rw here (sym (sym (ap (λ j. has_index j xs) ((eqℤ_iff x i).0 here)) ∙ dist.0))
          | inr apart ↦ rw apart (same i ∙ rw apart refl)
        ] in
      (bs, rw there e, nothing)
]

nothing_open : (bs : List (ℤ × Kind)) → ((i : ℤ) → is_some (kind_at bs i) ≡ false) → bs ≡ []
unfolding kind_at
nothing_open [] h = refl
nothing_open ((j, k) ∷ bs) h = absurd (
    let here : is_some (kind_at ((j, k) ∷ bs) j) ≡ true = rw ((eqℤ_iff j j).1 refl) refl in
    let f = sym here ∙ h j in cc)

-- A text block with the error, at an index that was not seen, and the end of the message.
error_events-settled :
    (allow : Bool) (n tokens : ℕ) (reason message : Text) (seen : List ℤ)
    → is_seen (pos n) seen ≡ false
    → is_settled (
        steps allow
          (content_block_start (pos n) (ContentBlock.text [])
            ∷ content_block_delta (pos n) (Delta.text_delta message)
            ∷ content_block_stop (pos n)
            ∷ message_delta reason tokens 1
            ∷ message_stop
            ∷ [])
          (record { open_blocks = []; seen_blocks = seen }))
      ≡ true
unfolding steps step is_settled kind_at storage_kind allows close is_empty strip is_nil
error_events-settled allow n tokens reason message seen unseen =
    let self = (eqℤ_iff (pos n) (pos n)).1 refl in rw unseen (rw self (rw self (rw self refl)))

tail-settled :
    (allow : Bool) (fresh request_model : Text) (tokens : ℕ) (message : Text) (t : Tracker)
    (c : Check)
    → c.open_blocks ≡ []
    → is_seen (pos t.next_content_index) c.seen_blocks ≡ false
    → is_settled (steps allow (iter_midstream_error_tail fresh request_model tokens message t) c)
      ≡ true
unfolding iter_midstream_error_tail emit_error
tail-settled allow fresh request_model tokens message t c closed unseen =
    ap
      (λ bs. is_settled (
        steps allow (iter_midstream_error_tail fresh request_model tokens message t)
          (record c { open_blocks = bs })))
      closed
    ∙ error_events-settled allow t.next_content_index tokens _ message c.seen_blocks unseen

tail-ends :
    (fresh request_model : Text) (tokens : ℕ) (message : Text) (t : Tracker)
    → ends_with_stop (iter_midstream_error_tail fresh request_model tokens message t) ≡ true
unfolding iter_midstream_error_tail emit_error ends_with_stop is_stop
tail-ends fresh request_model tokens message t = refl

any-append : (es fs : List Event) → any is_start es ≡ true → any is_start (es ++ fs) ≡ true
unfolding any is_start
any-append [] fs h = cc
any-append (e ∷ es) fs h = elim (Bool-cases (is_start e)) [
  | inl here ↦ rw here refl
  | inr later ↦ rw later (any-append es fs (ground (arith, h)))
]

-- An error in the middle of a stream that has begun, and in which the checker has refused nothing
-- yet: the stops of the open blocks and the tail make it a complete stream.
pub error_tail-holds :
    (allow : Bool) (es : List Event) (c : Check) (fresh request_model : Text) (tokens : ℕ)
    (message : Text)
    → any is_start es ≡ true
    → steps allow es new_check ≡ some c
    → let t = feed es new_tracker in
      holds allow (
        es
        ++ (iter_close_unclosed_blocks t
            ++ iter_midstream_error_tail fresh request_model tokens message t))
      ≡ true
unfolding holds
error_tail-holds allow es c fresh request_model tokens message begun passed =
    let t = feed es new_tracker in
    let h = tracker-IsObserved allow es c passed in
    let tail = iter_midstream_error_tail fresh request_model tokens message t in
    let (bs, stops, nothing) = stops-steps allow t.open_stack c h.distinct h.same in
    let settled =
      tail-settled allow fresh request_model tokens message t (record c { open_blocks = bs })
        (nothing_open bs nothing) (h.fresh t.next_content_index (omega arith)) in
    let ends = ends_with_stop-append es (iter_close_unclosed_blocks t ++ tail) (
      ends_with_stop-append (iter_close_unclosed_blocks t) tail
        (tail-ends fresh request_model tokens message t)) in
    rw (any-append es (iter_close_unclosed_blocks t ++ tail) begun) (
      rw ends (
        ap is_settled (
          steps-append allow es (iter_close_unclosed_blocks t ++ tail) new_check c passed
          ∙ steps-append allow (iter_close_unclosed_blocks t) tail c _ stops)
        ∙ settled))
