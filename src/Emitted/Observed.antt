-- ===== src/Emitted/Observed.antt =====
-- The tracker beside the checker of streams.
use mathlib.Core.Option.{some-injective}
use mathlib.Core.Path.{subst}
use claude_chakra.Prelude.{
  ℕ, ◌≤◌, ◌≡◌, refl, sym, ◌∙◌, ap, inl, inr, Bool, true, false, none, some, List, [], ◌∷◌, any,
  is_some, Text, Bool-cases, Option-cases, arith,
}
use claude_chakra.Prelude.Int.{ℤ, pos, negsuc, eqℤ}
use claude_chakra.Native.{has_index}
use claude_chakra.Native.Segments.{IsDistinct, has_index-leave_out}
use claude_chakra.Sse.Event.{
  ContentBlock, Delta, Event, message_start, content_block_start, content_block_delta,
  content_block_stop, error,
}
use claude_chakra.Sse.Contract.{
  Kind, Check, new_check, kind_at, close, is_seen, storage_kind, allows, step, steps, and_then,
}
use claude_chakra.Sse.Simulation.{kind_at-close}
use claude_chakra.Emitted.{Tracker, new_tracker, observe, feed, next_after}
use claude_chakra.Emitted.Stack.{stopped-leave_out, IsDistinct-leave_out}

-- The stack holds what the checker has open, and the next index was not seen.
pub record IsObserved (t : Tracker) (c : Check) : Type 0 where
  pub distinct : IsDistinct t.open_stack
  pub same : (i : ℤ) → is_some (kind_at c.open_blocks i) ≡ has_index i t.open_stack
  pub fresh : (n : ℕ) → t.next_content_index ≤ n → is_seen (pos n) c.seen_blocks ≡ false

abbrev pub opened : ℤ → Kind → Check → Check
opened i k c = record { open_blocks = (i, k) ∷ c.open_blocks; seen_blocks = i ∷ c.seen_blocks }

-- What a start that the checker takes has done.
step-start :
    (allow : Bool) (i : ℤ) (block : ContentBlock) (c c' : Check)
    → step allow (content_block_start i block) c ≡ some c'
    → (k : Kind) × (kind_at c.open_blocks i ≡ none)
      × (is_seen i c.seen_blocks ≡ false)
      × (c' ≡ opened i k c)
unfolding step
step-start allow i block c c' h = elim (Option-cases (kind_at c.open_blocks i)) [
  | inr (k, there) ↦ absurd (
      let f : step allow (content_block_start i block) c ≡ none = rw there refl in
      let g = sym f ∙ h in cc)
  | inl closed ↦ elim (Bool-cases (is_seen i c.seen_blocks)) [
    | inl seen ↦ absurd (
        let f : step allow (content_block_start i block) c ≡ none = rw closed (rw seen refl) in
        let g = sym f ∙ h in cc)
    | inr unseen ↦ elim (Option-cases (storage_kind block)) [
      | inl unknown ↦ absurd (
          let f : step allow (content_block_start i block) c ≡ none =
            rw closed (rw unseen (rw unknown refl)) in
          let g = sym f ∙ h in cc)
      | inr (k, known) ↦ (
        k,
        closed,
        unseen,
        (let f : step allow (content_block_start i block) c ≡ some (opened i k c) =
              rw closed (rw unseen (rw known refl)) in
            some-injective _ _ (sym h ∙ f)),
      )
    ]
  ]
]

step-stop :
    (allow : Bool) (i : ℤ) (c c' : Check)
    → step allow (content_block_stop i) c ≡ some c'
    → c' ≡ record c { open_blocks = close i c.open_blocks }
unfolding step
step-stop allow i c c' h = elim (Option-cases (kind_at c.open_blocks i)) [
  | inl closed ↦ absurd (
      let f : step allow (content_block_stop i) c ≡ none = rw closed refl in
      let g = sym f ∙ h in cc)
  | inr (k, there) ↦
      let f : step allow (content_block_stop i) c
          ≡ some (record c { open_blocks = close i c.open_blocks }) =
        rw there refl in
      some-injective _ _ (sym h ∙ f)
]

step-delta :
    (allow : Bool) (i : ℤ) (d : Delta) (c c' : Check)
    → step allow (content_block_delta i d) c ≡ some c'
    → c' ≡ c
unfolding step
step-delta allow i d c c' h = elim (Option-cases (kind_at c.open_blocks i)) [
  | inl closed ↦ absurd (
      let f : step allow (content_block_delta i d) c ≡ none = rw closed refl in
      let g = sym f ∙ h in cc)
  | inr (k, there) ↦ elim (Bool-cases (allows k d)) [
    | inl fits ↦
        let f : step allow (content_block_delta i d) c ≡ some c = rw there (rw fits refl) in
        some-injective _ _ (sym h ∙ f)
    | inr differs ↦ absurd (
        let f : step allow (content_block_delta i d) c ≡ none = rw there (rw differs refl) in
        let g = sym f ∙ h in cc)
  ]
]

step-error : (allow : Bool) (m : Text) (c c' : Check) → step allow (error m) c ≡ some c' → c' ≡ c
unfolding step
step-error true m c c' h = some-injective _ _ (sym h)
step-error false m c c' h = absurd cc

next_after-grows : (n : ℕ) (i : ℤ) → n ≤ next_after n i
next_after-grows n (pos i) = ground arith
next_after-grows n (negsuc i) = omega arith

next_after-beyond : (n m : ℕ) (i : ℤ) → next_after n i ≤ m → eqℤ i (pos m) ≡ false
next_after-beyond n m (pos i) h = ground arith
next_after-beyond n m (negsuc i) h = refl

module _ (allow : Bool) (t : Tracker) (c c' : Check) (h : IsObserved t c) where
  start-IsObserved :
      (i : ℤ) (block : ContentBlock)
      → step allow (content_block_start i block) c ≡ some c'
      → IsObserved (observe (content_block_start i block) t) c'
  unfolding observe kind_at is_seen has_index any IsDistinct
  start-IsObserved i block e =
      let (k, closed, unseen, same) = step-start allow i block c c' e in
      subst (IsObserved (observe (content_block_start i block) t)) (sym same) (record {
        distinct = (sym (h.same i) ∙ rw closed refl, h.distinct);
        same = λ j. elim (Bool-cases (eqℤ i j)) [
          | inl here ↦ rw here refl
          | inr apart ↦ rw apart (h.same j)
        ];
        fresh = λ m le.
            rw (next_after-beyond t.next_content_index m i le)
              (h.fresh m (omega (arith, next_after-grows t.next_content_index i, le)));
      })

  stop-IsObserved :
      (i : ℤ)
      → step allow (content_block_stop i) c ≡ some c'
      → IsObserved (observe (content_block_stop i) t) c'
  unfolding observe
  stop-IsObserved i e =
      let out = stopped-leave_out i t.open_stack h.distinct in
      subst (IsObserved (observe (content_block_stop i) t)) (sym (step-stop allow i c c' e))
        (record {
          distinct = subst IsDistinct (sym out) (IsDistinct-leave_out i t.open_stack h.distinct);
          same = λ j.
              ap is_some (kind_at-close i j c.open_blocks)
              ∙ (elim (Bool-cases (eqℤ i j)) [
                | inl here ↦
                    rw here (sym (has_index-leave_out j i t.open_stack ∙ rw here (ground arith)))
                | inr apart ↦ rw apart (
                    h.same j ∙ sym (has_index-leave_out j i t.open_stack ∙ rw apart (ground arith)))
              ]
                  ∙ sym (ap (has_index j) out));
          fresh = h.fresh;
        })

  event-IsObserved : (e : Event) → step allow e c ≡ some c' → IsObserved (observe e t) c'
  unfolding observe step
  event-IsObserved (content_block_start i block) e = start-IsObserved i block e
  event-IsObserved (content_block_stop i) e = stop-IsObserved i e
  event-IsObserved (content_block_delta i d) e =
      subst (IsObserved t) (sym (step-delta allow i d c c' e)) h
  event-IsObserved (error m) e = subst (IsObserved t) (sym (step-error allow m c c' e)) h
  event-IsObserved (message_start mid model tokens) e =
      subst (IsObserved (observe (message_start mid model tokens) t)) (some-injective _ _ e)
        (record { distinct = h.distinct; same = h.same; fresh = h.fresh })
  event-IsObserved _ e = subst (IsObserved t) (some-injective _ _ e) h

feed-IsObserved :
    (allow : Bool) (es : List Event) (t : Tracker) (c c' : Check)
    → IsObserved t c
    → steps allow es c ≡ some c'
    → IsObserved (feed es t) c'
unfolding feed steps
feed-IsObserved allow [] t c c' h e = subst (IsObserved t) (some-injective _ _ e) h
feed-IsObserved allow (x ∷ es) t c c' h e = elim (Option-cases (step allow x c)) [
  | inl bad ↦ absurd (let f = sym (ap (λ o. and_then o (steps allow es)) bad) ∙ e in cc)
  | inr (d, good) ↦
      feed-IsObserved allow es (observe x t) d c' (event-IsObserved allow t c d h x good)
        (sym (ap (λ o. and_then o (steps allow es)) good) ∙ e)
]

-- The tracker of a stream that the checker takes.
pub tracker-IsObserved :
    (allow : Bool) (es : List Event) (c : Check)
    → steps allow es new_check ≡ some c
    → IsObserved (feed es new_tracker) c
unfolding kind_at is_seen has_index any IsDistinct
tracker-IsObserved allow es c e =
    feed-IsObserved allow es new_tracker new_check c
      (record { distinct = tt; same = λ i. refl; fresh = λ n le. refl }) e
