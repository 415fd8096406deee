-- ===== src/Sse/Tools.antt =====
-- The changes of the tool states keep the builder and the checker in step.
use claude_chakra.Prelude.{
  is_empty, ℕ, ◌≡◌, ◌≢◌, refl, sym, ap, ◌∙◌, inl, inr, true, false, some, [], ◌∷◌, ◌++◌, arith,
  Bool-cases, Option-cases, All, All-map, any, Text, ◌==◌,
}
use claude_chakra.Prelude.Int.{ℤ}
use claude_chakra.Sse.Blocks.{
  ToolCallState, ToolStates, Blocks, get_tool, modify, ensure_tool, set_stream_tool_id,
  register_tool_name, new_tool,
}
use claude_chakra.Sse.Contract.{Kind, Check, kind_at}
use claude_chakra.Sse.Calls.{has_content_blocks}
use claude_chakra.Sse.Simulation.{Apart, Owns, InStep}

-- The second states have the started blocks of the first, and may end in more that are not started.
abbrev Alike : ToolStates → ToolStates → Type 0
Alike [] fs = All (λ f. f.1.started ≡ false) fs
Alike (e ∷ es) [] = ⊥
Alike (e ∷ es) (f ∷ fs) =
    (f.1.started ≡ e.1.started) × (f.1.block_index ≡ e.1.block_index) × Alike es fs

Alike-refl : (es : ToolStates) → Alike es es
Alike-refl [] = tt
Alike-refl (e ∷ es) = (refl, refl, Alike-refl es)

Alike-append :
    (es : ToolStates) (f : ℕ × ToolCallState) → f.1.started ≡ false → Alike es (es ++ f ∷ [])
Alike-append [] f h = (h, tt)
Alike-append (e ∷ es) f h = (refl, refl, Alike-append es f h)

Alike-modify :
    (i : ℕ) (f : ToolCallState → ToolCallState) (es : ToolStates)
    → ((t : ToolCallState) → ((f t).started ≡ t.started) × ((f t).block_index ≡ t.block_index))
    → Alike es (modify i f es)
unfolding modify
Alike-modify i f [] same = tt
Alike-modify i f ((j, t) ∷ es) same = elim (Bool-cases (j == i)) [
  | inl here ↦ rw here ((same t).0, (same t).1, Alike-refl es)
  | inr there ↦ rw there (refl, refl, Alike-modify i f es same)
]

Alike-All :
    (P : ToolCallState → Type 0) (es fs : ToolStates)
    → ((t u : ToolCallState) → u.started ≡ t.started → u.block_index ≡ t.block_index → P t → P u)
    → ((u : ToolCallState) → u.started ≡ false → P u)
    → Alike es fs
    → All (λ e. P e.1) es
    → All (λ e. P e.1) fs
Alike-All P [] fs carry off a h = All-map fs (λ f u. off f.1 u) a
Alike-All P (e ∷ es) [] carry off a h = elim a [ ]
Alike-All P (e ∷ es) (f ∷ fs) carry off a h =
    (carry e.1 f.1 a.0 a.1 h.0, Alike-All P es fs carry off a.2 h.1)

Alike-Apart : (es fs : ToolStates) → Alike es fs → Apart es → Apart fs
Alike-Apart [] [] a h = tt
Alike-Apart [] (f ∷ fs) a h = (All-map fs (λ g off on _. cc) a.1, Alike-Apart [] fs a.1 tt)
Alike-Apart (e ∷ es) [] a h = elim a [ ]
Alike-Apart (e ∷ es) (f ∷ fs) a h = (
  Alike-All (λ u. f.1.started ≡ true → u.started ≡ true → f.1.block_index ≢ u.block_index) es fs
      (λ t u e' at x onf onu same. x onf (sym e' ∙ onu) (same ∙ at)) (λ u off onf onu. cc) a.2
      (All-map es (λ g x onf ong same. x (sym a.0 ∙ onf) ong (sym a.1 ∙ same)) h.0),
  Alike-Apart es fs a.2 h.1,
)

Alike-Owns : (i : ℤ) (es fs : ToolStates) → Alike es fs → Owns i es → Owns i fs
Alike-Owns i [] fs a h = elim h [ ]
Alike-Owns i (e ∷ es) [] a h = elim a [ ]
Alike-Owns i (e ∷ es) (f ∷ fs) a (inl (on, at)) = inl (a.0 ∙ on, a.1 ∙ at)
Alike-Owns i (e ∷ es) (f ∷ fs) a (inr h) = inr (Alike-Owns i es fs a.2 h)

Alike-any :
    (es fs : ToolStates) → Alike es fs → any (λ e. e.1.started) fs ≡ any (λ e. e.1.started) es
unfolding any
Alike-any [] [] a = refl
Alike-any [] (f ∷ fs) a = ground (arith, Alike-any [] fs a.1)
Alike-any (e ∷ es) [] a = elim a [ ]
Alike-any (e ∷ es) (f ∷ fs) a = ground (arith, Alike-any es fs a.2)

module _ (b : Blocks) (c : Check) (s : InStep b c) where
  pub InStep-Alike :
      (ts : ToolStates) → Alike b.tool_states ts → InStep (record b { tool_states = ts }) c
  unfolding has_content_blocks
  InStep-Alike ts a = record {
    unseen = s.unseen;
    unopened = s.unopened;
    thinking = s.thinking;
    text = s.text;
    tools =
        Alike-All (λ t. t.started ≡ true → kind_at c.open_blocks t.block_index ≡ some Kind.tool_use)
          b.tool_states ts (λ t u e e' h on. ap (kind_at c.open_blocks) e' ∙ h (sym e ∙ on))
          (λ u off on. cc) a s.tools;
    apart = Alike-Apart b.tool_states ts a s.apart;
    owned = λ i k h. elim (s.owned i k h) [
      | inl first ↦ inl first
      | inr (inl second) ↦ inr (inl second)
      | inr (inr third) ↦ inr (inr (Alike-Owns i b.tool_states ts a third))
    ];
    nonempty = s.nonempty;
    begun = λ h. s.begun (rw (Alike-any b.tool_states ts a) at h);
  }

Alike-ensure : (i : ℕ) (name : Text) (ts : ToolStates) → Alike ts (ensure_tool i name ts)
unfolding ensure_tool
Alike-ensure i name ts = elim (Option-cases (get_tool ts i)) [
  | inl missing ↦ rw (missing, ensure_tool) (Alike-append ts (i, new_tool name) refl)
  | inr (t, there) ↦ rw (there, ensure_tool) (Alike-refl ts)
]

module _ (b : Blocks) (c : Check) (s : InStep b c) (i : ℕ) (value : Text) where
  pub InStep-set_stream_tool_id : InStep (set_stream_tool_id i value b) c
  unfolding set_stream_tool_id
  InStep-set_stream_tool_id = elim (Bool-cases (is_empty value)) [
    | inl empty ↦ rw empty s
    | inr given ↦
        let made = InStep-Alike b c s _ (Alike-ensure i [] b.tool_states) in
        rw given (InStep-Alike _ c made _ (Alike-modify i _ _ (λ t. (refl, refl))))
  ]

  pub InStep-register_tool_name : InStep (register_tool_name i value b) c
  unfolding register_tool_name
  InStep-register_tool_name = elim (Option-cases (get_tool b.tool_states i)) [
    | inl missing ↦
        rw (missing, register_tool_name) (InStep-Alike b c s _ (Alike-ensure i value b.tool_states))
    | inr (t, there) ↦
        rw (there, register_tool_name)
          (InStep-Alike b c s _ (Alike-modify i _ _ (λ u. (refl, refl))))
  ]

module _ (b : Blocks) (c : Check) (s : InStep b c) (i : ℕ) (json : Text) where
  -- New arguments of a tool change no block.
  pub InStep-contents :
      InStep
        (record b {
          tool_states =
              modify i (λ t. record t { contents = t.contents ++ json ∷ [] }) b.tool_states;
        })
        c
  InStep-contents = InStep-Alike b c s _ (Alike-modify i _ _ (λ t. (refl, refl)))
