-- ===== src/Native/Closing.antt =====
-- A segment that is closed is no longer among the open ones.
use mathlib.Core.Option.{some-injective}
use mathlib.Core.Path.{subst}
use claude_chakra.Prelude.{
  ◌≡◌, refl, sym, ◌∙◌, ap, inl, inr, Bool, true, false, not, ◌&&◌, ◌||◌, some, List, [], ◌∷◌, any,
  Bool-cases, arith,
}
use claude_chakra.Prelude.Int.{ℤ, pos, eqℤ, eqℤ_iff}
use claude_chakra.Native.{UpstreamBlockState, get_at, set_at, has_index}
use claude_chakra.Native.Segments.{
  Segments, opens, IsDistinct, opens-on, opens-off, get_at-here, get_at-there, set_at-here,
  set_at-there,
}

-- An index goes with its only place in a list, and not with another one's.
pub without_head :
    (x i : ℤ) (xs : List ℤ)
    → has_index x xs ≡ false
    → has_index i xs ≡ (eqℤ x i || has_index i xs) && not (eqℤ x i)
without_head x i xs absent = elim (Bool-cases (eqℤ x i)) [
  | inl same ↦ rw same (rw⁻¹ ((eqℤ_iff x i).0 same) absent)
  | inr apart ↦ rw apart (ground arith)
]

with_head :
    (x y i : ℤ) (xs : List ℤ) (b : Bool)
    → has_index x xs ≡ false
    → has_index y xs ≡ true
    → b ≡ has_index i xs && not (eqℤ y i)
    → eqℤ x i || b ≡ (eqℤ x i || has_index i xs) && not (eqℤ y i)
with_head x y i xs b absent there e = elim (Bool-cases (eqℤ x i)) [
  | inl same ↦ elim (Bool-cases (eqℤ y i)) [
    | inl same' ↦ absurd (
        let xy : x ≡ y = (eqℤ_iff x i).0 same ∙ sym ((eqℤ_iff y i).0 same') in
        let f = sym absent ∙ (ap (λ k. has_index k xs) xy ∙ there) in cc)
    | inr apart ↦ rw same (rw apart refl)
  ]
  | inr apart ↦ rw apart e
]

-- An open segment is among the open ones.
pub opens-get_at :
    (u : ℤ) (seg : UpstreamBlockState) (d : Segments)
    → get_at u d ≡ some seg
    → seg.is_open ≡ true
    → has_index (pos seg.down_index) (opens d) ≡ true
unfolding get_at has_index any
opens-get_at u seg [] e on = absurd cc
opens-get_at u seg ((v, s) ∷ d) e on = elim (Bool-cases (eqℤ v u)) [
  | inl same ↦
      let here : s ≡ seg = some-injective _ _ (sym (get_at-here u v s d same) ∙ e) in
      rw (opens-on v s d (ap (λ k. k.is_open) here ∙ on)) (
        ground (
          arith,
          (eqℤ_iff (pos s.down_index) (pos seg.down_index)).1 (ap (λ k. pos k.down_index) here),
        ))
  | inr apart ↦
      let later : has_index (pos seg.down_index) (opens d) ≡ true =
        opens-get_at u seg d (sym (get_at-there u v s d apart) ∙ e) on in
      elim (Bool-cases s.is_open) [
        | inl s_on ↦ rw (opens-on v s d s_on) (ground (arith, later))
        | inr s_off ↦ rw (opens-off v s d s_off) later
      ]
]

-- A segment that is closed.
pub opens-set_closed :
    (u i : ℤ) (seg : UpstreamBlockState) (d : Segments)
    → get_at u d ≡ some seg
    → seg.is_open ≡ true
    → IsDistinct (opens d)
    → has_index i (opens (set_at u (record seg { is_open = false }) d))
      ≡ has_index i (opens d) && not (eqℤ (pos seg.down_index) i)
unfolding get_at IsDistinct has_index any
opens-set_closed u i seg [] e on dist = absurd cc
opens-set_closed u i seg ((v, s) ∷ d) e on dist = elim (Bool-cases (eqℤ v u)) [
  | inl same ↦
      let here : s ≡ seg = some-injective _ _ (sym (get_at-here u v s d same) ∙ e) in
      let s_on : s.is_open ≡ true = ap (λ k. k.is_open) here ∙ on in
      let split = subst IsDistinct (opens-on v s d s_on) dist in
      let not_later : has_index (pos seg.down_index) (opens d) ≡ false =
        sym (ap (λ k. has_index (pos k.down_index) (opens d)) here) ∙ split.0 in
      rw (set_at-here u v s (record seg { is_open = false }) d same) (
        rw (opens-off u (record seg { is_open = false }) d refl) (
          rw (opens-on v s d s_on) (
            rw (ap (λ k. k.down_index) here)
              (without_head (pos seg.down_index) i (opens d) not_later))))
  | inr apart ↦
      let e' = sym (get_at-there u v s d apart) ∙ e in
      rw (set_at-there u v s (record seg { is_open = false }) d apart)
        (elim (Bool-cases s.is_open) [
          | inl s_on ↦
              let split = subst IsDistinct (opens-on v s d s_on) dist in
              let later : has_index i (opens (set_at u (record seg { is_open = false }) d))
                  ≡ has_index i (opens d) && not (eqℤ (pos seg.down_index) i) =
                opens-set_closed u i seg d e' on split.1 in
              rw (opens-on v s _ s_on) (
                rw (opens-on v s d s_on) (
                  with_head (pos s.down_index) (pos seg.down_index) i (opens d) _ split.0
                    (opens-get_at u seg d e' on) later))
          | inr s_off ↦ rw (opens-off v s _ s_off) (
              rw (opens-off v s d s_off)
                (opens-set_closed u i seg d e' on (subst IsDistinct (opens-off v s d s_off) dist)))
        ])
]

pub IsDistinct-set_closed :
    (u : ℤ) (seg : UpstreamBlockState) (d : Segments)
    → get_at u d ≡ some seg
    → seg.is_open ≡ true
    → IsDistinct (opens d)
    → IsDistinct (opens (set_at u (record seg { is_open = false }) d))
unfolding IsDistinct get_at has_index any
IsDistinct-set_closed u seg [] e on dist = absurd cc
IsDistinct-set_closed u seg ((v, s) ∷ d) e on dist = elim (Bool-cases (eqℤ v u)) [
  | inl same ↦
      let here : s ≡ seg = some-injective _ _ (sym (get_at-here u v s d same) ∙ e) in
      let split = subst IsDistinct (opens-on v s d (ap (λ k. k.is_open) here ∙ on)) dist in
      rw (set_at-here u v s (record seg { is_open = false }) d same)
        (rw (opens-off u (record seg { is_open = false }) d refl) split.1)
  | inr apart ↦
      let e' = sym (get_at-there u v s d apart) ∙ e in
      let d' = set_at u (record seg { is_open = false }) d in
      rw (set_at-there u v s (record seg { is_open = false }) d apart)
        (elim (Bool-cases s.is_open) [
          | inl s_on ↦
              let split = subst IsDistinct (opens-on v s d s_on) dist in
              let gone : has_index (pos s.down_index) (opens d')
                  ≡ has_index (pos s.down_index) (opens d)
                    && not (eqℤ (pos seg.down_index) (pos s.down_index)) =
                opens-set_closed u (pos s.down_index) seg d e' on split.1 in
              rw (opens-on v s d' s_on)
                (gone ∙ ground (arith, split.0), IsDistinct-set_closed u seg d e' on split.1)
          | inr s_off ↦
              rw (opens-off v s d' s_off) (
                IsDistinct-set_closed u seg d e' on (subst IsDistinct (opens-off v s d s_off) dist))
        ])
]
