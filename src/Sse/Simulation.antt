-- ===== src/Sse/Simulation.antt =====
-- The builder and the checker in step: what the builder has open is what the checker has open.
use claude_chakra.Prelude.{
  ℕ, ◌≤◌, ◌≡◌, ◌≢◌, refl, ◌⊎◌, inl, inr, Bool, true, false, none, some, List, [], ◌∷◌, ◌++◌, arith,
  Option-cases, if◌then◌else◌, All, any, is_nil,
}
use claude_chakra.Prelude.Int.{ℤ, pos, eqℤ, eqℤ_iff}
use claude_chakra.Sse.Event.{
  ContentBlock, Delta, Event, content_block_start, content_block_delta, content_block_stop,
}
use claude_chakra.Sse.Blocks.{ToolCallState, ToolStates, Blocks, new_blocks}
use claude_chakra.Sse.Contract.{
  Kind, storage_kind, allows, Check, new_check, kind_at, close, is_seen, step, steps,
}
use claude_chakra.Sse.Calls.{has_content_blocks}

-- The tool block of an entry is open if the entry is started.
abbrev pub ToolOpen : List (ℤ × Kind) → ℕ × ToolCallState → Type 0
ToolOpen opened e = e.1.started ≡ true → kind_at opened e.1.block_index ≡ some Kind.tool_use

-- Two started entries have blocks of their own.
abbrev pub ApartFrom : ℕ × ToolCallState → ℕ × ToolCallState → Type 0
ApartFrom e f = e.1.started ≡ true → f.1.started ≡ true → e.1.block_index ≢ f.1.block_index

abbrev pub Apart : ToolStates → Type 0
Apart [] = Unit
Apart (e ∷ es) = All (ApartFrom e) es × Apart es

abbrev pub Owns : ℤ → ToolStates → Type 0
Owns i [] = ⊥
Owns i (e ∷ es) = ((e.1.started ≡ true) × (e.1.block_index ≡ i)) ⊎ Owns i es

abbrev pub Owner : Blocks → ℤ → Type 0
Owner b i =
    ((b.thinking_started ≡ true) × (b.thinking_index ≡ i))
    ⊎ ((b.text_started ≡ true) × (b.text_index ≡ i))
    ⊎ Owns i b.tool_states

pub record InStep (b : Blocks) (c : Check) : Type 0 where
  pub unseen : (n : ℕ) → b.next_index ≤ n → is_seen (pos n) c.seen_blocks ≡ false
  pub unopened : (n : ℕ) → b.next_index ≤ n → kind_at c.open_blocks (pos n) ≡ none
  pub thinking :
      b.thinking_started ≡ true → kind_at c.open_blocks b.thinking_index ≡ some Kind.thinking
  pub text : b.text_started ≡ true → kind_at c.open_blocks b.text_index ≡ some Kind.text
  pub tools : All (ToolOpen c.open_blocks) b.tool_states
  pub apart : Apart b.tool_states
  pub owned : (i : ℤ) (k : Kind) → kind_at c.open_blocks i ≡ some k → Owner b i
  pub nonempty :
      (i : ℤ) (k : Kind) → kind_at c.open_blocks i ≡ some k → is_nil c.seen_blocks ≡ false
  pub begun : has_content_blocks b ≡ true → is_nil c.seen_blocks ≡ false

pub InStep-new : InStep new_blocks new_check
unfolding kind_at is_seen any has_content_blocks
InStep-new = record {
  unseen = λ n h. refl;
  unopened = λ n h. refl;
  thinking = λ h. cc;
  text = λ h. cc;
  tools = tt;
  apart = tt;
  owned = λ i k h. cc;
  nonempty = λ i k h. cc;
  begun = λ h. cc;
}

pub kind_at-close :
    (i j : ℤ) (bs : List (ℤ × Kind))
    → kind_at (close i bs) j ≡ (if eqℤ i j then none else kind_at bs j)
unfolding kind_at close
kind_at-close i j [] = ground arith
kind_at-close i j ((h, k) ∷ rest) =
    ground (arith, kind_at-close i j rest, eqℤ_iff h i, eqℤ_iff h j, eqℤ_iff i j)

pub steps-append :
    (allow : Bool) (es fs : List Event) (c c' : Check)
    → steps allow es c ≡ some c'
    → steps allow (es ++ fs) c ≡ steps allow fs c'
unfolding steps
steps-append allow [] fs c c' h = ground arith
steps-append allow (e ∷ es) fs c c' h = elim (Option-cases (step allow e c)) [
  | inl bad ↦ absurd (ground arith)
  | inr (d, e') ↦ rw e' (steps-append allow es fs d c' (ground arith))
]

-- A new block at the next index.
abbrev pub with_open : ℕ → Kind → Check → Check
with_open n k c = record {
  open_blocks = (pos n, k) ∷ c.open_blocks;
  seen_blocks = pos n ∷ c.seen_blocks;
}

abbrev pub without : ℤ → Check → Check
without i c = record c { open_blocks = close i c.open_blocks }

module _ (allow : Bool) (b : Blocks) (c : Check) (s : InStep b c) where
  pub step_start :
      (block : ContentBlock) (k : Kind)
      → storage_kind block ≡ some k
      → step allow (content_block_start (pos b.next_index) block) c
        ≡ some (with_open b.next_index k c)
  unfolding step
  step_start block k e =
      ground (arith, s.unopened b.next_index (omega arith), s.unseen b.next_index (omega arith), e)

  -- What was open is open beside the new block.
  pub still_open :
      (i : ℤ) (k k' : Kind)
      → kind_at c.open_blocks i ≡ some k
      → kind_at (with_open b.next_index k' c).open_blocks i ≡ some k
  unfolding kind_at
  still_open i k k' h =
      ground (arith, eqℤ_iff (pos b.next_index) i, s.unopened b.next_index (omega arith))

pub step_delta :
    (allow : Bool) (i : ℤ) (d : Delta) (k : Kind) (c : Check)
    → kind_at c.open_blocks i ≡ some k
    → allows k d ≡ true
    → step allow (content_block_delta i d) c ≡ some c
unfolding step
step_delta allow i d k c h a = ground arith

pub step_stop :
    (allow : Bool) (i : ℤ) (k : Kind) (c : Check)
    → kind_at c.open_blocks i ≡ some k
    → step allow (content_block_stop i) c ≡ some (without i c)
unfolding step
step_stop allow i k c h = ground arith
