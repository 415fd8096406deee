-- ===== src/Native/Segments.antt =====
-- The segments that are open downstream, as the dictionary of upstream blocks has them.
use mathlib.Core.Path.{subst}
use claude_chakra.Prelude.{
  ◌≡◌, refl, sym, ◌∙◌, ap, inl, inr, true, false, not, ◌&&◌, ◌||◌, some, List, [], ◌∷◌, map, any,
  filter, All, if◌then◌else◌, Bool-cases, arith,
}
use claude_chakra.Prelude.Int.{ℤ, pos, eqℤ, eqℤ_iff}
use claude_chakra.Native.{
  NativeEvent, UpstreamBlockState, get_at, set_at, has_index, leave_out, stop_of, close_others,
}

abbrev pub Segments : Type 0
Segments = List (ℤ × UpstreamBlockState)

-- The downstream indexes of the open segments.
unfoldable pub opens : Segments → List ℤ
opens [] = []
opens ((u, seg) ∷ d) = let rest = opens d in if seg.is_open then pos seg.down_index ∷ rest else rest

pub has_index-leave_out :
    (i j : ℤ) (xs : List ℤ) → has_index i (leave_out j xs) ≡ has_index i xs && not (eqℤ j i)
unfolding has_index leave_out any filter
has_index-leave_out i j [] = ground arith
has_index-leave_out i j (x ∷ xs) =
    ground (arith, has_index-leave_out i j xs, eqℤ_iff x j, eqℤ_iff x i, eqℤ_iff j i)

-- No index stands twice.
unfoldable pub IsDistinct : List ℤ → Type 0
IsDistinct [] = Unit
IsDistinct (x ∷ xs) = (has_index x xs ≡ false) × IsDistinct xs

pub opens-on :
    (u : ℤ) (s : UpstreamBlockState) (d : Segments)
    → s.is_open ≡ true
    → opens ((u, s) ∷ d) ≡ pos s.down_index ∷ opens d
unfolding opens
opens-on u s d on = rw on refl

pub opens-off :
    (u : ℤ) (s : UpstreamBlockState) (d : Segments)
    → s.is_open ≡ false
    → opens ((u, s) ∷ d) ≡ opens d
unfolding opens
opens-off u s d off = rw off refl

pub get_at-here :
    (u v : ℤ) (s : UpstreamBlockState) (d : Segments)
    → eqℤ v u ≡ true
    → get_at u ((v, s) ∷ d) ≡ some s
unfolding get_at
get_at-here u v s d same = rw same refl

pub get_at-there :
    (u v : ℤ) (s : UpstreamBlockState) (d : Segments)
    → eqℤ v u ≡ false
    → get_at u ((v, s) ∷ d) ≡ get_at u d
unfolding get_at
get_at-there u v s d apart = rw apart refl

pub set_at-here :
    (u v : ℤ) (s seg : UpstreamBlockState) (d : Segments)
    → eqℤ v u ≡ true
    → set_at u seg ((v, s) ∷ d) ≡ (u, seg) ∷ d
unfolding set_at
set_at-here u v s seg d same = rw same refl

pub set_at-there :
    (u v : ℤ) (s seg : UpstreamBlockState) (d : Segments)
    → eqℤ v u ≡ false
    → set_at u seg ((v, s) ∷ d) ≡ (v, s) ∷ set_at u seg d
unfolding set_at
set_at-there u v s seg d apart = rw apart refl

-- After the loop nothing is open, if the current block was not, and every open segment was stopped.
pub close_others-closes :
    (current : ℤ) (d : Segments)
    → All (λ e. eqℤ e.0 current ≡ false) d
    → ((close_others current d).0 ≡ map (λ i. NativeEvent.content_block_stop (some i)) (opens d))
      × (opens (close_others current d).1 ≡ [])
unfolding close_others opens
close_others-closes current [] h = (refl, refl)
close_others-closes current ((u, seg) ∷ d) h =
    let (stops, none_open) = close_others-closes current d h.1 in
    elim (Bool-cases seg.is_open) [
      | inl on ↦ rw h.0 (rw on (ap (λ es. stop_of seg.down_index ∷ es) stops, none_open))
      | inr off ↦ rw h.0 (rw off (stops, none_open))
    ]

-- A segment that is stored for an upstream index at which none is open.
pub opens-set_new :
    (u i : ℤ) (seg : UpstreamBlockState) (d : Segments)
    → seg.is_open ≡ true
    → ((old : UpstreamBlockState) → get_at u d ≡ some old → old.is_open ≡ false)
    → has_index i (opens (set_at u seg d)) ≡ eqℤ (pos seg.down_index) i || has_index i (opens d)
unfolding opens set_at get_at has_index any
opens-set_new u i seg [] on h = rw on refl
opens-set_new u i seg ((v, s) ∷ d) on h = elim (Bool-cases (eqℤ v u)) [
  | inl same ↦ let off : s.is_open ≡ false = h s (rw same refl) in rw same (rw on (rw off refl))
  | inr apart ↦
      let later : has_index i (opens (set_at u seg d))
          ≡ eqℤ (pos seg.down_index) i || has_index i (opens d) =
        opens-set_new u i seg d on λ old e. h old (rw apart e) in
      rw apart (elim (Bool-cases s.is_open) [
        | inl s_on ↦ rw s_on (ground (arith, later))
        | inr s_off ↦ rw s_off later
      ])
]

pub IsDistinct-set_new :
    (u : ℤ) (seg : UpstreamBlockState) (d : Segments)
    → seg.is_open ≡ true
    → ((old : UpstreamBlockState) → get_at u d ≡ some old → old.is_open ≡ false)
    → has_index (pos seg.down_index) (opens d) ≡ false
    → IsDistinct (opens d)
    → IsDistinct (opens (set_at u seg d))
unfolding IsDistinct has_index any opens set_at
IsDistinct-set_new u seg [] on h fresh dist = rw (opens-on u seg [] on) (refl, tt)
IsDistinct-set_new u seg ((v, s) ∷ d) on h fresh dist = elim (Bool-cases (eqℤ v u)) [
  | inl same ↦
      let off = opens-off v s d (h s (get_at-here u v s d same)) in
      rw (set_at-here u v s seg d same) (
        rw (opens-on u seg d on)
          (sym (ap (has_index (pos seg.down_index)) off) ∙ fresh, subst IsDistinct off dist))
  | inr apart ↦
      let h' : (old : UpstreamBlockState) → get_at u d ≡ some old → old.is_open ≡ false =
        λ old e. h old (get_at-there u v s d apart ∙ e) in
      rw (set_at-there u v s seg d apart) (elim (Bool-cases s.is_open) [
        | inl on' ↦
            let split = subst IsDistinct (opens-on v s d on') dist in
            let new = sym (ap (has_index (pos seg.down_index)) (opens-on v s d on')) ∙ fresh in
            let others : has_index (pos seg.down_index) (opens d) ≡ false = ground arith in
            rw (opens-on v s (set_at u seg d) on') (
              opens-set_new u (pos s.down_index) seg d on h'
                  ∙ ground (
                    arith,
                    eqℤ_iff (pos seg.down_index) (pos s.down_index),
                    eqℤ_iff (pos s.down_index) (pos seg.down_index),
                  ),
              IsDistinct-set_new u seg d on h' others split.1,
            )
        | inr off' ↦
            let e = opens-off v s d off' in
            rw (opens-off v s (set_at u seg d) off') (
              IsDistinct-set_new u seg d on h' (sym (ap (has_index (pos seg.down_index)) e) ∙ fresh)
                (subst IsDistinct e dist))
      ])
]
