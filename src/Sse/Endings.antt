-- ===== src/Sse/Endings.antt =====
-- The end of a response: nothing stays open, and the last event is a `message_stop`.
use claude_chakra.Prelude.{
  ℕ, ◌≡◌, refl, ◌∙◌, inl, inr, Bool, true, false, Option, some, List, [], ◌∷◌, ◌++◌, arith,
  Bool-cases, Text, codes, any, is_nil, strip, is_empty,
}
use claude_chakra.Sse.Event.{ContentBlock, Delta, Event, error}
use claude_chakra.Sse.Blocks.{has_emitted_tool_block}
use claude_chakra.Sse.Builder.{
  Builder, Emits, ◌then_yield◌, when, close_content_blocks, close_all_blocks, finish_message,
  map_stop_reason, emit_error, emit_top_level_error, emit_text_delta,
}
use claude_chakra.Sse.Contract.{Kind, Check, storage_kind, allows, step, steps, ends_with_stop}
use claude_chakra.Sse.Calls.{
  Ending, completed, failed, needs_blank, has_content_blocks, speak, report_error, ending,
}
use claude_chakra.Sse.Simulation.{InStep, steps-append}
use claude_chakra.Sse.Emission.{Simulated, Simulated-when, whole_block}
use claude_chakra.Sse.Composed.{
  speak-Simulated, close_content_blocks-closed, ensure_text_block-started,
}
use claude_chakra.Sse.Closing.{
  steps-grows, nothing_open, close_all_blocks-closes, close_all_blocks-Simulated,
}

all_closed :
    (b : Builder)
    → ((close_all_blocks b).1.blocks.thinking_started ≡ false)
      × ((close_all_blocks b).1.blocks.text_started ≡ false)
unfolding close_all_blocks
all_closed b = close_content_blocks-closed b

tools_left :
    (b : Builder)
    → has_emitted_tool_block (close_all_blocks b).1.blocks ≡ false
    → any (λ e. e.1.started) (close_content_blocks b).1.blocks.tool_states ≡ false
unfolding close_all_blocks has_emitted_tool_block
tools_left b h = h

-- A checker that has nothing open and has seen a block, beside the events that lead there.
pub record Settled (allow : Bool) (c : Check) (es : List Event) : Type 0 where
  pub after : Check
  pub passes : steps allow es c ≡ some after
  pub closed : after.open_blocks ≡ []
  pub seen : is_nil after.seen_blocks ≡ false

-- The two events at the end of a message change nothing.
finish-Settled :
    (allow : Bool) (c : Check) (es : List Event) (reason : Text) (output : ℕ) (b : Builder)
    → Settled allow c es
    → Settled allow c (es ++ (finish_message reason output b).0)
unfolding finish_message steps step
finish-Settled allow c es reason output b s = record {
  after = s.after;
  passes = steps-append allow es _ c s.after s.passes ∙ refl;
  closed = s.closed;
  seen = s.seen;
}

-- An ending tolerates `allow` if it has no error event, or error events are allowed.
abbrev pub tolerates : Bool → Ending → Bool
tolerates allow (completed reason output) = true
tolerates allow (failed message) = allow

pub Settled-after :
    (allow : Bool) (c c' : Check) (es fs : List Event)
    → steps allow es c ≡ some c'
    → Settled allow c' fs
    → Settled allow c (es ++ fs)
Settled-after allow c c' es fs p s = record {
  after = s.after;
  passes = steps-append allow es fs c c' p ∙ s.passes;
  closed = s.closed;
  seen = s.seen;
}

needs_blank-content : (b : Builder) → needs_blank b ≡ false → has_content_blocks b.blocks ≡ true
unfolding needs_blank
needs_blank-content b h = ground arith

speak-started : (t : Text) (b : Builder) → (speak t b).1.blocks.text_started ≡ true
unfolding speak emit_text_delta
speak-started t b = ensure_text_block-started b

-- The response with the blank text where it is needed.
abbrev fill : Emits
fill = when needs_blank (speak (codes " "))

module _ (allow : Bool) (b : Builder) (c : Check) (s : InStep b.blocks c) where
  closing-Settled : is_nil c.seen_blocks ≡ false → Settled allow c (close_all_blocks b).0
  closing-Settled n =
      let (c', p, q, seen) = close_all_blocks-closes allow b c s in
      record { after = c'; passes = p; closed = q; seen = steps-grows allow _ c c' p n }

  filled : Simulated allow c (fill b)
  filled =
      Simulated-when allow needs_blank (speak (codes " ")) b c s
        λ _. speak-Simulated allow b c s (codes " ")

  filled_seen : (c' : Check) → InStep (fill b).1.blocks c' → is_nil c'.seen_blocks ≡ false
  filled_seen c' s' = elim (Bool-cases (needs_blank b)) [
    | inl blank ↦
        let spoken : InStep (speak (codes " ") b).1.blocks c' = rw blank at s' in
        spoken.nonempty _ _ (spoken.text (speak-started (codes " ") b))
    | inr whole ↦
        let same : InStep b.blocks c' = rw whole at s' in same.begun (needs_blank-content b whole)
  ]

module _ (allow : Bool) (b : Builder) (c : Check) (s : InStep b.blocks c) where
  completed-Settled :
      (reason : Option Text) (output : ℕ) → Settled allow c (ending (completed reason output) b).0
  unfolding ending
  completed-Settled reason output =
      let first = filled allow b c s in
      let b' = (fill b).1 in
      let close =
        closing-Settled allow b' first.after first.in_step
          (filled_seen allow b c s first.after first.in_step) in
      finish-Settled allow c ((fill b).0 ++ (close_all_blocks b').0) (map_stop_reason reason) output
        (close_all_blocks b').1
        (Settled-after allow c first.after (fill b).0 (close_all_blocks b').0 first.passes close)

  error-Settled :
      (message : Text)
      → allow ≡ true
      → has_emitted_tool_block (close_all_blocks b).1.blocks ≡ true
      → Settled allow c ((close_all_blocks b).0 ++ error message ∷ [])
  unfolding close_all_blocks has_emitted_tool_block has_content_blocks steps step
  error-Settled message on emitted =
      let (c', p, q, seen) = close_all_blocks-closes allow b c s in
      record {
        after = c';
        passes = steps-append allow (close_all_blocks b).0 (error message ∷ []) c c' p ∙ rw on refl;
        closed = q;
        seen = seen (ground arith);
      }

  text-Settled :
      (message : Text)
      → has_emitted_tool_block (close_all_blocks b).1.blocks ≡ false
      → Settled allow c ((close_all_blocks b).0 ++ (emit_error message (close_all_blocks b).1).0)
  unfolding emit_error has_emitted_tool_block storage_kind strip is_empty allows
  text-Settled message off =
      let b' = (close_all_blocks b).1 in
      let first = close_all_blocks-Simulated allow b c s (tools_left b off) in
      let (r, seen) =
        whole_block allow b' first.after first.in_step (ContentBlock.text [])
          (Delta.text_delta message) Kind.text refl refl in
      let (t, x) = all_closed b in
      Settled-after allow c first.after (close_all_blocks b).0 _ first.passes (record {
        after = r.after;
        passes = r.passes;
        closed = nothing_open _ r.after r.in_step t x off;
        seen = seen;
      })

  failed-Settled : (message : Text) → allow ≡ true → Settled allow c (ending (failed message) b).0
  unfolding ending emit_top_level_error
  failed-Settled message on =
      let b' = (close_all_blocks b).1 in
      finish-Settled allow c ((close_all_blocks b).0 ++ (report_error message b').0)
        (codes "end_turn") 1 (report_error message b').1
        (elim (Bool-cases (has_emitted_tool_block b'.blocks)) [
          | inl emitted ↦ rw (emitted, report_error) (error-Settled message on emitted)
          | inr quiet ↦ rw (quiet, report_error) (text-Settled message quiet)
        ])

  pub ending-Settled : (e : Ending) → tolerates allow e ≡ true → Settled allow c (ending e b).0
  ending-Settled (completed reason output) h = completed-Settled reason output
  ending-Settled (failed message) h = failed-Settled message h

-- The end of a stream that ends with another stream's events.
pub ends_with_stop-append :
    (es fs : List Event) → ends_with_stop fs ≡ true → ends_with_stop (es ++ fs) ≡ true
unfolding ends_with_stop
ends_with_stop-append [] fs h = h
ends_with_stop-append (e ∷ []) [] h = cc
ends_with_stop-append (e ∷ []) (f ∷ fs) h = h
ends_with_stop-append (e ∷ e' ∷ es) fs h = ends_with_stop-append (e' ∷ es) fs h

pub ends_with_stop-ending : (e : Ending) (b : Builder) → ends_with_stop (ending e b).0 ≡ true
unfolding ending finish_message ends_with_stop
ends_with_stop-ending (completed reason output) b =
    let m = (fill then_yield close_all_blocks) b in
    ends_with_stop-append m.0 (finish_message (map_stop_reason reason) output m.1).0 refl
ends_with_stop-ending (failed message) b =
    let m = (close_all_blocks then_yield report_error message) b in
    ends_with_stop-append m.0 (finish_message (codes "end_turn") 1 m.1).0 refl
