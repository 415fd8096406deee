-- ===== src/Emitted/Stack.antt =====
-- The stack of open blocks: each index once, so that a stop takes out that index and nothing else.
use claude_chakra.Prelude.{
  ◌≡◌, refl, sym, ◌∙◌, ap, inl, inr, true, false, List, [], ◌∷◌, any, filter, if◌then◌else◌,
  Bool-cases, arith,
}
use claude_chakra.Prelude.Int.{ℤ, eqℤ, eqℤ_iff}
use claude_chakra.Native.{has_index, leave_out}
use claude_chakra.Native.Segments.{IsDistinct, has_index-leave_out}
use claude_chakra.Emitted.{remove, stopped}

leave_out-nil : (i : ℤ) → leave_out i [] ≡ []
unfolding leave_out filter
leave_out-nil i = refl

leave_out-absent : (i : ℤ) (xs : List ℤ) → has_index i xs ≡ false → leave_out i xs ≡ xs
unfolding has_index leave_out any filter
leave_out-absent i [] h = refl
leave_out-absent i (x ∷ xs) h = elim (Bool-cases (eqℤ x i)) [
  | inl same ↦ absurd (ground arith)
  | inr apart ↦ rw apart (ap (λ r. x ∷ r) (leave_out-absent i xs (ground arith)))
]

leave_out-head :
    (i x : ℤ) (xs : List ℤ) → eqℤ x i ≡ true → has_index x xs ≡ false → leave_out i (x ∷ xs) ≡ xs
unfolding leave_out filter
leave_out-head i x xs same absent =
    rw same (leave_out-absent i xs (sym (ap (λ k. has_index k xs) ((eqℤ_iff x i).0 same)) ∙ absent))

leave_out-later :
    (i x : ℤ) (xs : List ℤ) → eqℤ x i ≡ false → leave_out i (x ∷ xs) ≡ x ∷ leave_out i xs
unfolding leave_out filter
leave_out-later i x xs apart = rw apart refl

remove-leave_out : (i : ℤ) (xs : List ℤ) → IsDistinct xs → remove i xs ≡ leave_out i xs
unfolding remove IsDistinct
remove-leave_out i [] h = sym (leave_out-nil i)
remove-leave_out i (x ∷ xs) h = elim (Bool-cases (eqℤ x i)) [
  | inl same ↦
      let absent : has_index i xs ≡ false =
        sym (ap (λ k. has_index k xs) ((eqℤ_iff x i).0 same)) ∙ h.0 in
      rw absent (rw same (sym (leave_out-head i x xs same h.0)))
  | inr apart ↦ elim (Bool-cases (has_index i xs)) [
    | inl there ↦
        rw there (ap (λ r. x ∷ r) (remove-leave_out i xs h.1) ∙ sym (leave_out-later i x xs apart))
    | inr absent ↦ rw absent (
        rw apart
          (sym (leave_out-later i x xs apart ∙ ap (λ r. x ∷ r) (leave_out-absent i xs absent))))
  ]
]

pub stopped-leave_out : (i : ℤ) (xs : List ℤ) → IsDistinct xs → stopped i xs ≡ leave_out i xs
unfolding stopped IsDistinct
stopped-leave_out i [] h = sym (leave_out-nil i)
stopped-leave_out i (x ∷ xs) h = elim (Bool-cases (eqℤ x i)) [
  | inl same ↦ rw same (sym (leave_out-head i x xs same h.0))
  | inr apart ↦ ap (λ b. if b then xs else remove i (x ∷ xs)) apart ∙ remove-leave_out i (x ∷ xs) h
]

pub IsDistinct-leave_out : (i : ℤ) (xs : List ℤ) → IsDistinct xs → IsDistinct (leave_out i xs)
unfolding leave_out filter IsDistinct
IsDistinct-leave_out i [] h = tt
IsDistinct-leave_out i (x ∷ xs) h = elim (Bool-cases (eqℤ x i)) [
  | inl same ↦ rw same (IsDistinct-leave_out i xs h.1)
  | inr apart ↦ rw apart (has_index-leave_out x i xs ∙ rw h.0 refl, IsDistinct-leave_out i xs h.1)
]
