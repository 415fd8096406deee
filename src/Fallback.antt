-- ===== src/Fallback.antt =====
-- api/fallback.py: one request streamed across a chain of candidates, and
-- core/anthropic/provider_stream_error.py: the events of a provider's error.
--
-- What a candidate's provider does is given: the chunks that its generator yields, and how it ends.
-- The chunks of the error come from `write`, which writes an event as text. What
-- `stream_with_fallback` yields to the client is a list; a candidate whose chunks are dropped yields none. Traces are left
-- out.
pub mod Choice
pub mod Wire
pub mod Failing
use claude_chakra.Prelude.{
  ℕ, ◌+◌, Bool, true, false, ◌||◌, Option, none, some, List, [], ◌∷◌, ◌++◌, map, if◌then◌else◌,
  length, take, drop, Text, codes, text_eq, strip, starts_with, find,
}
use claude_chakra.Sse.Event.{Event}
use claude_chakra.Sse.Builder.{new_builder, ◌then_yield◌, start_message, emit_error, finish_message}

abbrev pub event_prefix : Text
event_prefix = codes "event:"

-- The text up to a newline, or all of it.
unfoldable pub upto : Option ℕ → Text → Text
upto none s = s
upto (some n) s = take n s

-- `_sse_event_type`. The search for the newline starts after the prefix.
unfoldable pub sse_event_type : Text → Text
unfolding upto
sse_event_type event =
    let rest = drop (length event_prefix) event in
    if starts_with event_prefix event then strip (upto (find (codes "\n") rest) rest) else []

unfoldable pub is_commit_type : Text → Bool
is_commit_type t =
    text_eq t (codes "content_block_start") || text_eq t (codes "content_block_delta")

unfoldable pub commits : Text → Bool
commits event = is_commit_type (sse_event_type event)

-- iter_provider_stream_error_sse_events.
unfoldable pub iter_provider_stream_error_sse_events : Text → Text → ℕ → Text → Bool → List Event
unfolding start_message emit_error finish_message
iter_provider_stream_error_sse_events mid model tokens message sent =
    let start = if sent then (λ b. ([], b)) else start_message in
    let events =
      start then_yield emit_error message then_yield finish_message (codes "end_turn") 1 in
    (events (new_builder mid model tokens)).0

-- How a candidate's generator ends: it is exhausted, it raises a ProviderError with the message
-- for the user, or it raises anything else.
pub data End : Type 0 where
  exhausted : End
  provider_error : Text → End
  other_error : ℕ → End

pub record Attempt : Type 0 where
  pub model : Text
  pub chunks : List Text
  pub end : End

-- What the client is sent, and whether the request itself then raises.
pub record Response : Type 0 where
  pub sent : List Text
  pub raises : Option ℕ

-- `buffered` and `committed`.
pub record Hold : Type 0 where
  pub buffered : List Text
  pub committed : Bool

abbrev pub new_hold : Hold
new_hold = record { buffered = []; committed = false }

-- A round of the `async for`: what it yields.
unfoldable pub receive : Text → Hold → List Text × Hold
receive chunk h =
    if h.committed
    then (chunk ∷ [], h)
    else if commits chunk
    then (h.buffered ++ chunk ∷ [], record { buffered = []; committed = true })
    else ([], record h { buffered = h.buffered ++ chunk ∷ [] })

unfoldable pub receive_all : List Text → Hold → List Text × Hold
unfolding receive
receive_all [] h = ([], h)
receive_all (chunk ∷ chunks) h =
    let (out, h') = receive chunk h in let (outs, h'') = receive_all chunks h' in (out ++ outs, h'')

module _ (write : Event → Text) (mid : Text) (tokens : ℕ) where
  unfoldable pub error_chunks : Text → Text → Bool → List Text
  error_chunks model message sent =
      map write (iter_provider_stream_error_sse_events mid model tokens message sent)

  -- What follows the loop over the chunks; `next` is the rest of the chain, `none` after the last.
  unfoldable pub finish : End → Text → List Text × Hold → Option Response → Response
  unfolding error_chunks
  finish exhausted model (out, h) next = record {
    sent = if h.committed then out else out ++ h.buffered;
    raises = none;
  }
  finish (other_error tag) model (out, h) next = record { sent = out; raises = some tag }
  finish (provider_error message) model (out, h) none = record {
    sent = out ++ error_chunks model message h.committed;
    raises = none;
  }
  finish (provider_error message) model (out, h) (some r) = record {
    sent = if h.committed then out ++ error_chunks model message true else out ++ r.sent;
    raises = if h.committed then none else r.raises;
  }

  unfoldable pub rest_of_chain : List Attempt → Option Response → Option Response
  rest_of_chain [] r = none
  rest_of_chain (a ∷ rest) r = r

  -- `stream_with_fallback`. With no candidate nothing is yielded.
  unfoldable pub stream_with_fallback : List Attempt → Response
  unfolding finish receive_all rest_of_chain
  stream_with_fallback [] = record { sent = []; raises = none }
  stream_with_fallback (a ∷ rest) =
      finish a.end a.model (receive_all a.chunks new_hold)
        (rest_of_chain rest (some (stream_with_fallback rest)))
