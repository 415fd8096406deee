-- ===== src/Sse/Starting.antt =====
-- A tool block that starts keeps the builder and the checker in step.
use mathlib.Core.Path.{subst}
use claude_chakra.Prelude.{
  ℕ, ◌+◌, ◌≡◌, ◌≢◌, refl, sym, ◌∙◌, inl, inr, true, false, some, [], ◌∷◌, ◌++◌, arith, Bool-cases,
  Option-cases, All, All-map, All-append, is_nil, Text, ◌==◌,
}
use claude_chakra.Prelude.Int.{ℤ, pos, eqℤ_iff}
use claude_chakra.Sse.Blocks.{ToolCallState, ToolStates, Blocks, get_tool, modify, start_tool}
use claude_chakra.Sse.Contract.{Kind, Check, kind_at}
use claude_chakra.Sse.Calls.{is_started}
use claude_chakra.Sse.Simulation.{ToolOpen, ApartFrom, Apart, Owns, InStep, with_open, still_open}
use claude_chakra.Sse.Moves.{unseen_after, unopened_after, was_open, tools_still_open}

-- The entry that `start_tool` starts, as a change of its state.
abbrev starting : ℤ → Text → ToolCallState → ToolCallState
starting block id t = record t { block_index = block; tool_id = id; started = true }

-- No started entry has the block `i`.
abbrev Avoids : ℤ → ToolStates → Type 0
Avoids i ts = All (λ e. e.1.started ≡ true → e.1.block_index ≢ i) ts

modify-All :
    (P : ToolCallState → Type 0) (i : ℕ) (f : ToolCallState → ToolCallState) (ts : ToolStates)
    → ((t : ToolCallState) → P (f t))
    → All (λ e. P e.1) ts
    → All (λ e. P e.1) (modify i f ts)
unfolding modify
modify-All P i f [] new h = tt
modify-All P i f ((j, t) ∷ ts) new h = elim (Bool-cases (j == i)) [
  | inl here ↦ rw here (new t, h.1)
  | inr there ↦ rw there (h.0, modify-All P i f ts new h.1)
]

module _ (i : ℕ) (block : ℤ) (id : Text) where
  modify-Apart :
      (ts : ToolStates) → Avoids block ts → Apart ts → Apart (modify i (starting block id) ts)
  unfolding modify
  modify-Apart [] av h = tt
  modify-Apart ((j, t) ∷ ts) av h = elim (Bool-cases (j == i)) [
    | inl here ↦ rw here (All-map ts (λ e x on on' same. x on' (sym same)) av.1, h.1)
    | inr there ↦ rw there (
      modify-All (λ u. t.started ≡ true → u.started ≡ true → t.block_index ≢ u.block_index) i
          (starting block id) ts (λ u on _. av.0 on) h.0,
      modify-Apart ts av.1 h.1,
    )
  ]

  append-Apart :
      (ts : ToolStates) (f : ℕ × ToolCallState)
      → f.1.block_index ≡ block
      → Avoids block ts
      → Apart ts
      → Apart (ts ++ f ∷ [])
  append-Apart [] f at av h = (tt, tt)
  append-Apart (e ∷ ts) f at av h = (
    All-append (ApartFrom e) ts (f ∷ []) h.0 (λ on _ same. av.0 on (same ∙ at), tt),
    append-Apart ts f at av.1 h.1,
  )

  -- What was owned stays owned, but for the entry that starts anew.
  modify-Owns :
      (j : ℤ) (ts : ToolStates)
      → is_started ts i ≡ false
      → Owns j ts
      → Owns j (modify i (starting block id) ts)
  unfolding modify is_started get_tool
  modify-Owns j [] off h = elim h [ ]
  modify-Owns j ((m, t) ∷ ts) off (inl (on, at)) = elim (Bool-cases (m == i)) [
    | inl here ↦ absurd (ground arith)
    | inr there ↦ rw there (inl (on, at))
  ]
  modify-Owns j ((m, t) ∷ ts) off (inr h) = elim (Bool-cases (m == i)) [
    | inl here ↦ rw here (inr h)
    | inr there ↦ rw there (inr (modify-Owns j ts (ground arith) h))
  ]

  modify-Owns_self :
      (ts : ToolStates) (t : ToolCallState)
      → get_tool ts i ≡ some t
      → Owns block (modify i (starting block id) ts)
  unfolding modify get_tool
  modify-Owns_self [] t h = cc
  modify-Owns_self ((m, u) ∷ ts) t h = elim (Bool-cases (m == i)) [
    | inl here ↦ rw here (inl (refl, refl))
    | inr there ↦ rw there (inr (modify-Owns_self ts t (ground arith)))
  ]

  append-Owns :
      (j : ℤ) (ts : ToolStates) (f : ℕ × ToolCallState) → Owns j ts → Owns j (ts ++ f ∷ [])
  append-Owns j [] f h = elim h [ ]
  append-Owns j (e ∷ ts) f (inl h) = inl h
  append-Owns j (e ∷ ts) f (inr h) = inr (append-Owns j ts f h)

  append-Owns_self :
      (ts : ToolStates) (f : ℕ × ToolCallState)
      → f.1.started ≡ true
      → f.1.block_index ≡ block
      → Owns block (ts ++ f ∷ [])
  append-Owns_self [] f on at = inl (on, at)
  append-Owns_self (e ∷ ts) f on at = inr (append-Owns_self ts f on at)

module _ (b : Blocks) (c : Check) (s : InStep b c) (i : ℕ) (id name : Text) where
  abbrev opened : Check
  opened = with_open b.next_index Kind.tool_use c

  avoids : Avoids (pos b.next_index) b.tool_states
  avoids =
      All-map b.tool_states
        (λ e o on at. absurd (cc (o on, at, s.unopened b.next_index (omega arith)))) s.tools

  here : kind_at opened.open_blocks (pos b.next_index) ≡ some Kind.tool_use
  unfolding kind_at
  here = ground (arith, eqℤ_iff (pos b.next_index) (pos b.next_index))

  -- The facts about the new states from which the builder stays in step.
  started_InStep :
      (ts : ToolStates)
      → All (ToolOpen opened.open_blocks) ts
      → Apart ts
      → Owns (pos b.next_index) ts
      → ((j : ℤ) → Owns j b.tool_states → Owns j ts)
      → InStep (record b { next_index = b.next_index + 1; tool_states = ts }) opened
  unfolding is_nil
  started_InStep ts open_tools apart self keep = record {
    unseen = unseen_after b c s Kind.tool_use;
    unopened = unopened_after b c s Kind.tool_use;
    thinking =
        λ h. still_open true b c s b.thinking_index Kind.thinking Kind.tool_use (s.thinking h);
    text = λ h. still_open true b c s b.text_index Kind.text Kind.tool_use (s.text h);
    tools = open_tools;
    apart = apart;
    owned = λ j k h. elim (was_open b c s Kind.tool_use k j h) [
      | inl new ↦ inr (inr (subst (λ x. Owns x ts) new self))
      | inr old ↦ elim (s.owned j k old) [
        | inl first ↦ inl first
        | inr (inl second) ↦ inr (inl second)
        | inr (inr third) ↦ inr (inr (keep j third))
      ]
    ];
    nonempty = λ j k h. refl;
    begun = λ h. refl;
  }

  pub InStep-start_tool :
      is_started b.tool_states i ≡ false
      → InStep
          (record b {
            next_index = b.next_index + 1;
            tool_states = start_tool i (pos b.next_index) id name b.tool_states;
          })
          opened
  unfolding start_tool
  InStep-start_tool off =
      let n = pos b.next_index in
      let ts = b.tool_states in
      let still = tools_still_open b c s Kind.tool_use in
      elim (Option-cases (get_tool ts i)) [
        | inl missing ↦
            rw (missing, start_tool)
              (started_InStep _
                (All-append (ToolOpen opened.open_blocks) ts _ still (λ on. here, tt))
                (append-Apart i n id ts _ refl avoids s.apart)
                (append-Owns_self i n id ts _ refl refl) (λ j h. append-Owns i n id j ts _ h))
        | inr (t, there) ↦
            rw (there, start_tool)
              (started_InStep _
                (modify-All
                  (λ u.
                    u.started ≡ true
                    → kind_at opened.open_blocks u.block_index ≡ some Kind.tool_use)
                  i (starting n id) ts (λ u on. here) still)
                (modify-Apart i n id ts avoids s.apart) (modify-Owns_self i n id ts t there)
                (λ j h. modify-Owns i n id j ts off h))
      ]
