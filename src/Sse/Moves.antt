-- ===== src/Sse/Moves.antt =====
-- Each change of the builder's blocks keeps the builder and the checker in step.
use claude_chakra.Prelude.{
  ℕ, ◌+◌, ◌≤◌, ◌≡◌, ◌≢◌, refl, ◌⊎◌, inl, inr, true, false, none, some, arith, Bool-cases, All,
  All-map, any, is_nil,
}
use claude_chakra.Prelude.Int.{ℤ, pos, eqℤ, eqℤ_iff}
use claude_chakra.Sse.Blocks.{Blocks}
use claude_chakra.Sse.Contract.{Kind, Check, kind_at, is_seen}
use claude_chakra.Sse.Calls.{has_content_blocks}
use claude_chakra.Sse.Simulation.{ToolOpen, InStep, kind_at-close, with_open, without, still_open}

module _ (b : Blocks) (c : Check) (s : InStep b c) where
  pub unseen_after :
      (k : Kind) (n : ℕ)
      → b.next_index + 1 ≤ n
      → is_seen (pos n) (with_open b.next_index k c).seen_blocks ≡ false
  unfolding is_seen any
  unseen_after k n h = ground (arith, s.unseen n (omega arith))

  pub unopened_after :
      (k : Kind) (n : ℕ)
      → b.next_index + 1 ≤ n
      → kind_at (with_open b.next_index k c).open_blocks (pos n) ≡ none
  unfolding kind_at
  unopened_after k n h = ground (arith, s.unopened n (omega arith))

  -- An open block after the opening is the new one, or was open before.
  pub was_open :
      (k k' : Kind) (i : ℤ)
      → kind_at (with_open b.next_index k c).open_blocks i ≡ some k'
      → (pos b.next_index ≡ i) ⊎ (kind_at c.open_blocks i ≡ some k')
  unfolding kind_at
  was_open k k' i h = elim (Bool-cases (eqℤ (pos b.next_index) i)) [
    | inl new ↦ inl ((eqℤ_iff _ _).0 new)
    | inr old ↦ inr (ground arith)
  ]

  pub tools_still_open :
      (k : Kind) → All (ToolOpen (with_open b.next_index k c).open_blocks) b.tool_states
  tools_still_open k =
      All-map b.tool_states (λ e o on. still_open true b c s e.1.block_index Kind.tool_use k (o on))
        s.tools

  -- What is left open when `i` is closed.
  left_open :
      (i j : ℤ) (k : Kind)
      → kind_at (without i c).open_blocks j ≡ some k
      → (i ≢ j) × (kind_at c.open_blocks j ≡ some k)
  left_open i j k h = ground (arith, kind_at-close i j c.open_blocks, eqℤ_iff i j)

  stays_open :
      (i j : ℤ) (k k' : Kind)
      → kind_at c.open_blocks i ≡ some k
      → kind_at c.open_blocks j ≡ some k'
      → k ≢ k'
      → kind_at (without i c).open_blocks j ≡ some k'
  stays_open i j k k' h h' ne = ground (arith, kind_at-close i j c.open_blocks, eqℤ_iff i j)

  unopened_without :
      (i : ℤ) (n : ℕ) → b.next_index ≤ n → kind_at (without i c).open_blocks (pos n) ≡ none
  unopened_without i n h = ground (arith, kind_at-close i (pos n) c.open_blocks, s.unopened n h)

  tools_stay_open :
      (i : ℤ) (k : Kind)
      → kind_at c.open_blocks i ≡ some k
      → k ≢ Kind.tool_use
      → All (ToolOpen (without i c).open_blocks) b.tool_states
  tools_stay_open i k h ne =
      All-map b.tool_states (λ e o on. stays_open i e.1.block_index k Kind.tool_use h (o on) ne)
        s.tools

  back_open :
      (k : Kind) (i : ℤ) (k' : Kind)
      → kind_at c.open_blocks i ≡ some k'
      → kind_at (without (pos b.next_index) (with_open b.next_index k c)).open_blocks i ≡ some k'
  back_open k i k' h = ground (
    arith,
    kind_at-close (pos b.next_index) i (with_open b.next_index k c).open_blocks,
    still_open true b c s i k' k h,
    eqℤ_iff (pos b.next_index) i,
    s.unopened b.next_index (omega arith),
  )

  whole_was_open :
      (k : Kind) (i : ℤ) (k' : Kind)
      → kind_at (without (pos b.next_index) (with_open b.next_index k c)).open_blocks i ≡ some k'
      → kind_at c.open_blocks i ≡ some k'
  unfolding kind_at
  whole_was_open k i k' h = ground (
    arith,
    kind_at-close (pos b.next_index) i (with_open b.next_index k c).open_blocks,
    eqℤ_iff (pos b.next_index) i,
  )

  pub InStep-start_thinking :
      b.thinking_started ≡ false
      → InStep
          (record b {
            next_index = b.next_index + 1;
            thinking_index = pos b.next_index;
            thinking_started = true;
          })
          (with_open b.next_index Kind.thinking c)
  unfolding kind_at is_nil
  InStep-start_thinking off = record {
    unseen = unseen_after Kind.thinking;
    unopened = unopened_after Kind.thinking;
    thinking = λ h. ground arith;
    text = λ h. still_open true b c s b.text_index Kind.text Kind.thinking (s.text h);
    tools = tools_still_open Kind.thinking;
    apart = s.apart;
    owned = λ i k h. elim (was_open Kind.thinking k i h) [
      | inl new ↦ inl (refl, new)
      | inr old ↦ elim (s.owned i k old) [ inl (on, e) ↦ absurd (cc) | inr rest ↦ inr rest ]
    ];
    nonempty = λ i k h. refl;
    begun = λ h. refl;
  }

  pub InStep-start_text :
      b.text_started ≡ false
      → InStep
          (record b {
            next_index = b.next_index + 1;
            text_index = pos b.next_index;
            text_started = true;
          })
          (with_open b.next_index Kind.text c)
  unfolding kind_at is_nil
  InStep-start_text off = record {
    unseen = unseen_after Kind.text;
    unopened = unopened_after Kind.text;
    thinking = λ h. still_open true b c s b.thinking_index Kind.thinking Kind.text (s.thinking h);
    text = λ h. ground arith;
    tools = tools_still_open Kind.text;
    apart = s.apart;
    owned = λ i k h. elim (was_open Kind.text k i h) [
      | inl new ↦ inr (inl (refl, new))
      | inr old ↦ elim (s.owned i k old) [
        | inl first ↦ inl first
        | inr (inl (on, e)) ↦ absurd (cc)
        | inr (inr rest) ↦ inr (inr rest)
      ]
    ];
    nonempty = λ i k h. refl;
    begun = λ h. refl;
  }

  pub InStep-stop_thinking :
      b.thinking_started ≡ true
      → InStep (record b { thinking_started = false }) (without b.thinking_index c)
  unfolding has_content_blocks
  InStep-stop_thinking on =
      let here = s.thinking on in
      record {
        unseen = s.unseen;
        unopened = unopened_without b.thinking_index;
        thinking = λ h. cc;
        text = λ h.
            stays_open b.thinking_index b.text_index Kind.thinking Kind.text here (s.text h)
              (λ e. cc);
        tools = tools_stay_open b.thinking_index Kind.thinking here (λ e. cc);
        apart = s.apart;
        owned = λ i k h.
            let (ne, old) = left_open b.thinking_index i k h in
            elim (s.owned i k old) [ inl (_, e) ↦ absurd (ne e) | inr rest ↦ inr rest ];
        nonempty = λ i k h. s.nonempty i k (left_open b.thinking_index i k h).1;
        begun = s.begun;
      }

  pub InStep-stop_text :
      b.text_started ≡ true → InStep (record b { text_started = false }) (without b.text_index c)
  unfolding has_content_blocks
  InStep-stop_text on =
      let here = s.text on in
      record {
        unseen = s.unseen;
        unopened = unopened_without b.text_index;
        thinking = λ h.
            stays_open b.text_index b.thinking_index Kind.text Kind.thinking here (s.thinking h)
              (λ e. cc);
        text = λ h. cc;
        tools = tools_stay_open b.text_index Kind.text here (λ e. cc);
        apart = s.apart;
        owned = λ i k h.
            let (ne, old) = left_open b.text_index i k h in
            elim (s.owned i k old) [
              | inl first ↦ inl first
              | inr (inl (_, e)) ↦ absurd (ne e)
              | inr (inr rest) ↦ inr (inr rest)
            ];
        nonempty = λ i k h. s.nonempty i k (left_open b.text_index i k h).1;
        begun = s.begun;
      }

  -- A block that is opened and closed at once.
  pub InStep-whole :
      (k : Kind)
      → InStep
          (record b { next_index = b.next_index + 1 })
          (without (pos b.next_index) (with_open b.next_index k c))
  unfolding is_nil
  InStep-whole k =
      let n = b.next_index in
      let back : (i : ℤ) (k' : Kind)
          → kind_at c.open_blocks i ≡ some k'
          → kind_at (without (pos n) (with_open n k c)).open_blocks i ≡ some k' =
        λ i k' h. back_open k i k' h in
      record {
        unseen = unseen_after k;
        unopened = λ m h. ground (
          arith,
          kind_at-close (pos n) (pos m) (with_open n k c).open_blocks,
          unopened_after k m h,
        );
        thinking = λ h. back b.thinking_index Kind.thinking (s.thinking h);
        text = λ h. back b.text_index Kind.text (s.text h);
        tools = All-map b.tool_states (λ e o on. back e.1.block_index Kind.tool_use (o on)) s.tools;
        apart = s.apart;
        owned = λ i k' h. s.owned i k' (whole_was_open k i k' h);
        nonempty = λ i k h. refl;
        begun = λ h. refl;
      }
