-- ===== src/Sse/Closing.antt =====
-- Closing: when the open blocks are stopped, the checker has none left.
use claude_chakra.Prelude.{
  ℕ, ◌≡◌, ◌≢◌, refl, ◌∙◌, inl, inr, Bool, true, false, some, List, [], ◌∷◌, arith, Bool-cases,
  Option-cases, All, any, is_nil, append-nil,
}
use claude_chakra.Prelude.Int.{ℤ, eqℤ_iff}
use claude_chakra.Sse.Event.{Event}
use claude_chakra.Sse.Blocks.{Blocks, ToolStates, ToolCallState}
use claude_chakra.Sse.Builder.{Builder, close_content_blocks, close_all_blocks, stop_tools}
use claude_chakra.Sse.Contract.{Kind, Check, kind_at, step, steps}
use claude_chakra.Sse.Calls.{has_content_blocks}
use claude_chakra.Sse.Simulation.{
  InStep, ToolOpen, Apart, ApartFrom, Owns, Owner, without, kind_at-close, steps-append, step_stop,
}
use claude_chakra.Sse.Emission.{Simulated}
use claude_chakra.Sse.Composed.{close_content-Simulated, close_content_blocks-closed}

-- A block that was seen stays seen.
step-grows :
    (allow : Bool) (e : Event) (c c' : Check)
    → step allow e c ≡ some c'
    → is_nil c.seen_blocks ≡ false
    → is_nil c'.seen_blocks ≡ false
unfolding step is_nil
step-grows allow e c c' h n = ground arith

pub steps-grows :
    (allow : Bool) (es : List Event) (c c' : Check)
    → steps allow es c ≡ some c'
    → is_nil c.seen_blocks ≡ false
    → is_nil c'.seen_blocks ≡ false
unfolding steps
steps-grows allow [] c c' h n = ground arith
steps-grows allow (e ∷ es) c c' h n = elim (Option-cases (step allow e c)) [
  | inl bad ↦ absurd (ground arith)
  | inr (d, e') ↦ steps-grows allow es d c' (ground arith) (step-grows allow e c d e' n)
]

pub none_open : (os : List (ℤ × Kind)) → ((i : ℤ) (k : Kind) → kind_at os i ≡ some k → ⊥) → os ≡ []
unfolding kind_at
none_open [] h = refl
none_open ((j, k) ∷ os) h = absurd (h j k (ground (arith, eqℤ_iff j j)))

-- The other tools' blocks stay open when one is stopped.
apart_open :
    (e : ℕ × ToolCallState) (ts : ToolStates) (c : Check)
    → e.1.started ≡ true
    → All (ApartFrom e) ts
    → All (ToolOpen c.open_blocks) ts
    → All (ToolOpen (without e.1.block_index c).open_blocks) ts
apart_open e [] c on a o = tt
apart_open e (f ∷ ts) c on a o = (
  λ on'. ground (
    arith,
    kind_at-close e.1.block_index f.1.block_index c.open_blocks,
    eqℤ_iff e.1.block_index f.1.block_index,
    a.0 on on',
    o.0 on',
  ),
  apart_open e ts c on a.1 o.1,
)

other_owner :
    (e : ℕ × ToolCallState) (ts : ToolStates) (i : ℤ)
    → Owns i (e ∷ ts)
    → (e.1.started ≡ true → e.1.block_index ≢ i)
    → Owns i ts
other_owner e ts i (inl (on, at)) ne = absurd (ne on at)
other_owner e ts i (inr h) ne = h

-- Stopping the started tools closes every block, if they own all that is open.
stop_tools-closes :
    (allow : Bool) (ts : ToolStates) (c : Check)
    → All (ToolOpen c.open_blocks) ts
    → Apart ts
    → ((i : ℤ) (k : Kind) → kind_at c.open_blocks i ≡ some k → Owns i ts)
    → (c' : Check) × (steps allow (stop_tools ts) c ≡ some c') × (c'.open_blocks ≡ [])
unfolding stop_tools steps
stop_tools-closes allow [] c o a own = (c, refl, none_open c.open_blocks own)
stop_tools-closes allow ((m, t) ∷ ts) c o a own = elim (Bool-cases t.started) [
  | inl on ↦
      let i = t.block_index in
      let still = apart_open (m, t) ts c on a.0 o.1 in
      let own' = λ (j : ℤ) (k : Kind) (h : kind_at (without i c).open_blocks j ≡ some k).
        other_owner (m, t) ts j (own j k (ground (arith, kind_at-close i j c.open_blocks)))
          (λ _ same. ground (arith, kind_at-close i j c.open_blocks, eqℤ_iff i j)) in
      let (c', p, q) = stop_tools-closes allow ts (without i c) still a.1 own' in
      (c', rw on (rw (step_stop allow i Kind.tool_use c (o.0 on)) p), q)
  | inr off ↦
      let own' = λ (j : ℤ) (k : Kind) (h : kind_at c.open_blocks j ≡ some k).
        other_owner (m, t) ts j (own j k h) (λ on. cc) in
      let (c', p, q) = stop_tools-closes allow ts c o.1 a.1 own' in (c', rw off p, q)
]

-- With no text and no thinking open, whatever is open belongs to a tool.
tool-Owner :
    (b : Blocks) (i : ℤ)
    → b.thinking_started ≡ false
    → b.text_started ≡ false
    → Owner b i
    → Owns i b.tool_states
tool-Owner b i t x (inl (on, _)) = absurd (cc)
tool-Owner b i t x (inr (inl (on, _))) = absurd (cc)
tool-Owner b i t x (inr (inr h)) = h

no_owner : (i : ℤ) (ts : ToolStates) → any (λ e. e.1.started) ts ≡ false → ¬ Owns i ts
unfolding any
no_owner i [] off h = h
no_owner i (e ∷ ts) off (inl (on, _)) = ground arith
no_owner i (e ∷ ts) off (inr h) = no_owner i ts (ground arith) h

-- With no tool started either, nothing is open.
pub nothing_open :
    (b : Blocks) (c : Check)
    → InStep b c
    → b.thinking_started ≡ false
    → b.text_started ≡ false
    → any (λ e. e.1.started) b.tool_states ≡ false
    → c.open_blocks ≡ []
nothing_open b c s t x off =
    none_open c.open_blocks
      λ i k h. no_owner i b.tool_states off (tool-Owner b i t x (s.owned i k h))

-- `close_all_blocks` passes the checker and leaves nothing open, whatever was open before. If the
-- builder had a block of its own, one was seen.
pub close_all_blocks-closes :
    (allow : Bool) (b : Builder) (c : Check)
    → InStep b.blocks c
    → (c' : Check) × (steps allow (close_all_blocks b).0 c ≡ some c')
      × (c'.open_blocks ≡ [])
      × (has_content_blocks (close_content_blocks b).1.blocks ≡ true
          → is_nil c'.seen_blocks ≡ false)
unfolding close_all_blocks
close_all_blocks-closes allow b c s =
    let first = close_content-Simulated allow b c s in
    let b' = (close_content_blocks b).1 in
    let (t, x) = close_content_blocks-closed b in
    let (c', p, q) =
      stop_tools-closes allow b'.blocks.tool_states first.after first.in_step.tools
        first.in_step.apart (λ i k h. tool-Owner b'.blocks i t x (first.in_step.owned i k h)) in
    (
      c',
      steps-append allow (close_content_blocks b).0 (stop_tools b'.blocks.tool_states) c first.after
            first.passes
          ∙ p,
      q,
      λ has. steps-grows allow _ first.after c' p (first.in_step.begun has),
    )

stop_tools-none : (ts : ToolStates) → any (λ e. e.1.started) ts ≡ false → stop_tools ts ≡ []
unfolding stop_tools any
stop_tools-none [] off = refl
stop_tools-none (e ∷ ts) off = ground (arith, stop_tools-none ts)

-- With no tool started, `close_all_blocks` keeps the builder and the checker in step.
pub close_all_blocks-Simulated :
    (allow : Bool) (b : Builder) (c : Check)
    → InStep b.blocks c
    → any (λ e. e.1.started) (close_content_blocks b).1.blocks.tool_states ≡ false
    → Simulated allow c (close_all_blocks b)
unfolding close_all_blocks
close_all_blocks-Simulated allow b c s off =
    let first = close_content-Simulated allow b c s in
    record {
      after = first.after;
      passes = rw (stop_tools-none _ off) (rw append-nil first.passes);
      in_step = first.in_step;
    }
