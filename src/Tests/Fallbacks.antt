-- ===== src/Tests/Fallbacks.antt =====
-- A chain of three candidates: the first is rate limited after a ping, the second answers.
use claude_chakra.Prelude.{
  is_empty, text_eq, ◌∷◌, any, ◌≡◌, refl, true, false, none, List, [], map, Text, codes, find,
  starts_with, strip, rstrip, lstrip, is_space, ◌++◌,
}
use claude_chakra.Prelude.Int.{pos}
use claude_chakra.Sse.Event.{
  Event, ContentBlock, message_start, content_block_start, format_sse_event, event_name,
}
use claude_chakra.Sse.Contract.{Check, Kind, holds, steps, step, is_seen, storage_kind, kind_at}
use claude_chakra.Fallback.{
  Attempt, exhausted, provider_error, stream_with_fallback, iter_provider_stream_error_sse_events,
  sse_event_type, commits, is_commit_type, upto,
}
use claude_chakra.Fallback.Choice.{shown, chosen, is_decisive, stream_with_fallback-chosen}
use claude_chakra.Fallback.Wire.{sse_event_type-format_sse_event}
use claude_chakra.Fallback.Failing.{error_events-repeat, stream_with_fallback-failing}

abbrev write : Event → Text
write e = format_sse_event (event_name e) (codes "{}")

abbrev limited : Attempt
limited = record {
  model = codes "m1";
  chunks = write (Event.other (codes "ping")) ∷ [];
  end = provider_error (codes "rate limited");
}

abbrev answer : Attempt
answer = record {
  model = codes "m2";
  chunks =
      write (message_start (codes "msg") (codes "m2") 3)
      ∷ write (content_block_start (pos 0) (ContentBlock.text []))
      ∷ [];
  end = exhausted;
}

stream_with_fallback-chosen_example :
    stream_with_fallback write (codes "msg") 3 (limited ∷ answer ∷ limited ∷ [])
    ≡ shown write (codes "msg") 3 (chosen limited (answer ∷ limited ∷ []))
stream_with_fallback-chosen_example =
    stream_with_fallback-chosen write (codes "msg") 3 limited (answer ∷ limited ∷ [])

limited-fails : is_decisive limited ≡ false
unfolding commits is_commit_type sse_event_type upto find starts_with strip rstrip lstrip is_space
    text_eq any
limited-fails = refl

stream_with_fallback-failing_example :
    (es : List Event) × ((stream_with_fallback write (codes "msg") 3 (limited ∷ limited ∷ [])).sent
      ≡ map write es)
    × (holds false es ≡ true)
    × ((stream_with_fallback write (codes "msg") 3 (limited ∷ limited ∷ [])).raises ≡ none)
stream_with_fallback-failing_example =
    stream_with_fallback-failing write (codes "msg") 3 limited (limited ∷ []) limited-fails
      (limited-fails, tt)

sse_event_type-format_sse_event_example :
    sse_event_type (format_sse_event (codes "message_stop") (codes "{}")) ≡ codes "message_stop"
unfolding find starts_with strip rstrip lstrip is_space
sse_event_type-format_sse_event_example =
    sse_event_type-format_sse_event (codes "message_stop") (codes "{}") refl refl

abbrev begun : List Event
begun =
    message_start (codes "msg") (codes "m2") 3
    ∷ content_block_start (pos 0) (ContentBlock.text [])
    ∷ []

abbrev after_begun : Check
after_begun = record { open_blocks = (pos 0, Kind.text) ∷ []; seen_blocks = pos 0 ∷ [] }

error_events-repeat_example :
    holds true
      (begun ++ iter_provider_stream_error_sse_events (codes "m") (codes "m2") 3 (codes "no") true)
    ≡ false
unfolding steps step is_seen any storage_kind kind_at is_empty strip
error_events-repeat_example =
    error_events-repeat true begun after_begun (codes "m") (codes "m2") 3 (codes "no") refl refl
