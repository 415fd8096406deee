-- ===== src/Fallback/Failing.antt =====
-- What the client gets when every candidate fails, and when one fails after it committed.
use claude_chakra.Prelude.{
  ℕ, ◌≡◌, refl, ◌∙◌, ap, Bool, true, false, none, some, List, [], ◌∷◌, ◌++◌, map, All, Text, inl,
  inr, Option-cases, any, arith, is_empty, strip, is_nil,
}
use claude_chakra.Prelude.Int.{ℤ, pos}
use claude_chakra.Sse.Event.{Event, ContentBlock, content_block_start}
use claude_chakra.Sse.Contract.{
  Check, new_check, kind_at, is_seen, step, steps, holds, is_settled, ends_with_stop, storage_kind,
  allows, close,
}
use claude_chakra.Sse.Simulation.{steps-append}
use claude_chakra.Fallback.{
  End, exhausted, other_error, provider_error, Attempt, Response, error_chunks,
  iter_provider_stream_error_sse_events, stream_with_fallback,
}
use claude_chakra.Fallback.Choice.{
  is_decisive, is_final, chosen, shown_end, stream_with_fallback-chosen,
}

-- The events of an error at the start of a stream are a complete stream.
error_events-holds :
    (mid model : Text) (tokens : ℕ) (message : Text)
    → holds false (iter_provider_stream_error_sse_events mid model tokens message false) ≡ true
unfolding iter_provider_stream_error_sse_events holds step steps kind_at is_seen is_settled any
    ends_with_stop storage_kind allows is_empty strip is_nil close
error_events-holds mid model tokens message = refl

-- A start of a block whose index was seen is refused.
start-refused :
    (allow : Bool) (i : ℤ) (block : ContentBlock) (es : List Event) (c : Check)
    → is_seen i c.seen_blocks ≡ true
    → steps allow (content_block_start i block ∷ es) c ≡ none
unfolding steps step
start-refused allow i block es c seen = elim (Option-cases (kind_at c.open_blocks i)) [
  | inl closed ↦ rw closed (rw seen refl)
  | inr (k, opened) ↦ rw opened refl
]

-- An error is reported in a block with the index 0, as in a new stream. After events that used this
-- index, as every stream of the builder with a block does, the whole breaks the contract.
pub error_events-repeat :
    (allow : Bool) (es : List Event) (c : Check) (mid model : Text) (tokens : ℕ) (message : Text)
    → steps allow es new_check ≡ some c
    → is_seen (pos 0) c.seen_blocks ≡ true
    → holds allow (es ++ iter_provider_stream_error_sse_events mid model tokens message true)
      ≡ false
unfolding holds iter_provider_stream_error_sse_events is_settled
error_events-repeat allow es c mid model tokens message passed seen =
    rw (steps-append allow es _ new_check c passed)
      (rw (start-refused allow (pos 0) (ContentBlock.text []) _ c seen) (ground arith))

chosen-failing :
    (a : Attempt) (rest : List Attempt)
    → is_decisive a ≡ false
    → All (λ b. is_decisive b ≡ false) rest
    → is_decisive (chosen a rest) ≡ false
chosen-failing a [] h hs = h
chosen-failing a (b ∷ rest) h hs = rw h (chosen-failing b rest hs.0 hs.1)

-- The text of one complete stream, and nothing raised.
record IsErrorStream (write : Event → Text) (r : Response) : Type 0 where
  events : List Event
  text : r.sent ≡ map write events
  complete : holds false events ≡ true
  quiet : r.raises ≡ none

failing-IsErrorStream :
    (write : Event → Text) (mid : Text) (tokens : ℕ) (end : End) (model : Text) (chunks : List Text)
    → is_final end ≡ false
    → IsErrorStream write (shown_end write mid tokens end model chunks false)
unfolding error_chunks
failing-IsErrorStream write mid tokens (provider_error message) model chunks h = record {
  events = iter_provider_stream_error_sse_events mid model tokens message false;
  text = refl;
  complete = error_events-holds mid model tokens message;
  quiet = refl;
}
failing-IsErrorStream write mid tokens exhausted model chunks h = cc
failing-IsErrorStream write mid tokens (other_error tag) model chunks h = cc

-- If every candidate fails by a ProviderError before it commits, the client is sent the text of one complete stream,
-- which meets the contract, and the request does not raise.
pub stream_with_fallback-failing :
    (write : Event → Text) (mid : Text) (tokens : ℕ) (a : Attempt) (rest : List Attempt)
    → is_decisive a ≡ false
    → All (λ b. is_decisive b ≡ false) rest
    → (es : List Event) × ((stream_with_fallback write mid tokens (a ∷ rest)).sent ≡ map write es)
      × (holds false es ≡ true)
      × ((stream_with_fallback write mid tokens (a ∷ rest)).raises ≡ none)
stream_with_fallback-failing write mid tokens a rest h hs =
    let x = chosen a rest in
    let failed = chosen-failing a rest h hs in
    let answer : stream_with_fallback write mid tokens (a ∷ rest)
        ≡ shown_end write mid tokens x.end x.model x.chunks false =
      stream_with_fallback-chosen write mid tokens a rest
      ∙ ap (shown_end write mid tokens x.end x.model x.chunks) (ground arith) in
    let s = failing-IsErrorStream write mid tokens x.end x.model x.chunks (ground arith) in
    (s.events, ap (λ r. r.sent) answer ∙ s.text, s.complete, ap (λ r. r.raises) answer ∙ s.quiet)
