-- ===== src/Native/Order.antt =====
-- The whole stream: what the client gets is in order if what the upstream sends is.
use mathlib.Core.Option.{some-injective}
use mathlib.Core.Path.{subst}
use claude_chakra.Prelude.{
  ◌≡◌, refl, sym, ◌∙◌, ap, inl, inr, Bool, true, false, none, some, List, [], ◌∷◌, All,
  if◌then◌else◌, Bool-cases, Option-cases, Text, any,
}
use claude_chakra.Native.{
  NativeEvent, content_block_start, content_block_delta, content_block_stop, opaque,
  NativeSseBlockPolicyState, new_policy, has_index,
}
use claude_chakra.Native.Transform.{
  should_drop_block_type, begin_block, transform_start, delta_type_to_block_kind, transform_delta,
  transform_native_sse_block_event, transform_all, sent_of,
}
use claude_chakra.Native.Client.{Client, new_client, watch, and_then, watch_all, watch_all-append}
use claude_chakra.Native.Segments.{IsDistinct, opens}
use claude_chakra.Native.Tracking.{with_block, without_block}
use claude_chakra.Native.Moves.{
  InStep, Follows, start-dropped, start-kept, delta-followed, stop-followed,
}

-- The type of a block is a str, and that of a delta is one of the four known.
unfoldable pub HasKnownTypes : NativeEvent → Type 0
HasKnownTypes (content_block_start i (some block)) = (t : Text) × (block.kind ≡ some t)
HasKnownTypes (content_block_delta i (some delta)) =
    (k : Text) × (delta_type_to_block_kind delta.kind ≡ some k)
HasKnownTypes _ = Unit

taken : (b : Bool) (c c' : Client) → (if b then some c else none) ≡ some c' → (b ≡ true) × (c ≡ c')
taken true c c' e = (refl, some-injective _ _ e)
taken false c c' e = absurd cc

refused :
    (b : Bool) (c c' : Client) → (if b then none else some c) ≡ some c' → (b ≡ false) × (c ≡ c')
refused true c c' e = absurd cc
refused false c c' e = (refl, some-injective _ _ e)

module _ (thinking : Bool) (s : NativeSseBlockPolicyState) (down : Client) where
  event-followed :
      (e : NativeEvent) (up up' : Client)
      → InStep up s down
      → HasKnownTypes e
      → watch e up ≡ some up'
      → Follows up' (transform_native_sse_block_event thinking e s) down
  unfolding transform_native_sse_block_event watch HasKnownTypes transform_start transform_delta
      sent_of watch_all
  event-followed (content_block_start (some i) (some block)) up up' h (t, typed) w =
      let (unseen, e) = refused (has_index i up.seen_blocks) (with_block i up) up' w in
      subst (λ u. Follows u (transform_start thinking i block s) down) e
        (elim (Bool-cases (should_drop_block_type thinking block.kind)) [
          | inl gone ↦ rw gone (down, refl, start-dropped i up s down h unseen)
          | inr kept ↦ rw kept (
              subst (λ o. Follows (with_block i up) (begin_block i block o s) down) (sym typed)
                (start-kept i up s down h unseen block t))
        ])
  event-followed (content_block_delta (some i) (some delta)) up up' h (k, typed) w =
      let (there, e) = taken (has_index i up.open_blocks) up up' w in
      subst (λ u. Follows u (transform_delta thinking i delta s) down) e
        (elim (Bool-cases (has_index i s.dropped_indexes)) [
          | inl gone ↦ rw gone (down, refl, h)
          | inr stays ↦ rw stays (elim (Bool-cases (should_drop_block_type thinking delta.kind)) [
            | inl gone ↦ rw gone (down, refl, h)
            | inr kept ↦ rw kept (rw typed (delta-followed i up s down h there delta k stays))
          ])
        ])
  event-followed (content_block_stop (some i)) up up' h known w =
      let (there, e) = taken (has_index i up.open_blocks) (without_block i up) up' w in
      subst
        (λ u.
          Follows u (transform_native_sse_block_event thinking (content_block_stop (some i)) s)
            down)
        e (stop-followed i up s down h there thinking)
  event-followed (opaque t) up up' h known w =
      subst (λ u. Follows u (some (opaque t ∷ []), s) down) (some-injective _ _ w) (down, refl, h)
  event-followed _ up up' h known w = absurd cc

stream-followed :
    (thinking : Bool) (es : List NativeEvent) (s : NativeSseBlockPolicyState) (up up' down : Client)
    → InStep up s down
    → All HasKnownTypes es
    → watch_all es up ≡ some up'
    → (down' : Client) × (watch_all (transform_all thinking es s).0 down ≡ some down')
unfolding transform_all watch_all
stream-followed thinking [] s up up' down h known w = (down, refl)
stream-followed thinking (e ∷ es) s up up' down h known w = elim (Option-cases (watch e up)) [
  | inl bad ↦ absurd (let f = sym (ap (λ o. and_then o (watch_all es)) bad) ∙ w in cc)
  | inr (up1, good) ↦
      let (down1, first, h1) = event-followed thinking s down e up up1 h known.0 good in
      let later = sym (ap (λ o. and_then o (watch_all es)) good) ∙ w in
      let p = transform_native_sse_block_event thinking e s in
      let (down2, rest) = stream-followed thinking es p.1 up1 up' down1 h1 known.1 later in
      (
        down2,
        watch_all-append (sent_of p.0) (transform_all thinking es p.1).0 down down1 first ∙ rest,
      )
]

start-InStep : InStep new_client new_policy new_client
unfolding IsDistinct opens has_index any
start-InStep = record {
  tracked = record { distinct = tt; same = λ i. refl; fresh = λ m le. refl; seen = λ i there. cc };
  followed = record { keys = tt; present = λ u there. absurd cc };
}

-- If the upstream starts each block once, sends deltas and stops only for blocks that are open, and
-- every block and delta has a known type, then the client gets a stream of which the same is true,
-- with the thinking filtered out or not.
pub transform_all-watch :
    (thinking : Bool) (es : List NativeEvent) (up : Client)
    → All HasKnownTypes es
    → watch_all es new_client ≡ some up
    → (down : Client) × (watch_all (transform_all thinking es new_policy).0 new_client ≡ some down)
transform_all-watch thinking es up known w =
    stream-followed thinking es new_policy new_client up new_client start-InStep known w
