-- ===== src/Native/Following.antt =====
-- The segments in step with the upstream: every index that it has open was dropped or has a segment.
use mathlib.Core.Path.{subst}
use claude_chakra.Prelude.{
  ◌≡◌, refl, sym, ◌∙◌, ap, inl, inr, ◌⊎◌, true, false, not, ◌||◌, some, List, [], ◌∷◌, any, All,
  if◌then◌else◌, Bool-cases, arith,
}
use claude_chakra.Prelude.Int.{ℤ, eqℤ, eqℤ_iff}
use claude_chakra.Native.{UpstreamBlockState, get_at, set_at, has_index, close_others}
use claude_chakra.Native.Client.{Client}
use claude_chakra.Native.Segments.{Segments, has_index-leave_out, get_at-here, get_at-there}
use claude_chakra.Native.Tracking.{with_block, without_block}

pub record IsFollowed (up : Client) (d : Segments) (dropped : List ℤ) : Type 0 where
  pub keys : All (λ e. has_index e.0 up.seen_blocks ≡ true) d
  pub present :
      (u : ℤ)
      → has_index u up.open_blocks ≡ true
      → (has_index u dropped ≡ true) ⊎ ((seg : UpstreamBlockState) × (get_at u d ≡ some seg))

pub get_at-set_at :
    (u v : ℤ) (seg : UpstreamBlockState) (d : Segments)
    → get_at v (set_at u seg d) ≡ (if eqℤ u v then some seg else get_at v d)
unfolding get_at set_at
get_at-set_at u v seg [] = refl
get_at-set_at u v seg ((j, s) ∷ d) = elim (Bool-cases (eqℤ j u)) [
  | inl same ↦
      let e : eqℤ j v ≡ eqℤ u v = ap (λ k. eqℤ k v) ((eqℤ_iff j u).0 same) in
      rw same (rw e (elim (Bool-cases (eqℤ u v)) [ inl k ↦ rw k refl | inr k ↦ rw k refl ]))
  | inr apart ↦ rw apart (elim (Bool-cases (eqℤ j v)) [
    | inl here ↦
        let other : eqℤ u v ≡ false = elim (Bool-cases (eqℤ u v)) [
          | inl k ↦ absurd (
              let f = (eqℤ_iff j u).1 ((eqℤ_iff j v).0 here ∙ sym ((eqℤ_iff u v).0 k)) in
              let g = sym apart ∙ f in cc)
          | inr k ↦ k
        ] in
        rw here (rw other refl)
    | inr there ↦ rw there (get_at-set_at u v seg d)
  ])
]

pub All-set_at :
    (P : ℤ → Type 0) (u : ℤ) (seg : UpstreamBlockState) (d : Segments)
    → P u
    → All (λ e. P e.0) d
    → All (λ e. P e.0) (set_at u seg d)
unfolding set_at
All-set_at P u seg [] pu h = (pu, tt)
All-set_at P u seg ((j, s) ∷ d) pu h = elim (Bool-cases (eqℤ j u)) [
  | inl same ↦ rw same (pu, h.1)
  | inr apart ↦ rw apart (h.0, All-set_at P u seg d pu h.1)
]

-- An index that has a segment was seen.
pub get_at-All :
    (P : ℤ → Type 0) (u : ℤ) (seg : UpstreamBlockState) (d : Segments)
    → All (λ e. P e.0) d
    → get_at u d ≡ some seg
    → P u
unfolding get_at
get_at-All P u seg [] h e = absurd cc
get_at-All P u seg ((j, s) ∷ d) h e = elim (Bool-cases (eqℤ j u)) [
  | inl same ↦ subst P ((eqℤ_iff j u).0 same) h.0
  | inr apart ↦ get_at-All P u seg d h.1 (sym (get_at-there u j s d apart) ∙ e)
]

-- The loop over the other segments keeps their upstream indexes.
pub All-close_others :
    (P : ℤ → Type 0) (u : ℤ) (d : Segments)
    → All (λ e. P e.0) d
    → All (λ e. P e.0) (close_others u d).1
unfolding close_others
All-close_others P u [] h = tt
All-close_others P u ((j, s) ∷ d) h = elim (Bool-cases (eqℤ j u || not s.is_open)) [
  | inl kept ↦ rw kept (h.0, All-close_others P u d h.1)
  | inr stopped ↦ rw stopped (h.0, All-close_others P u d h.1)
]

pub get_at-close_others :
    (u v : ℤ) (seg : UpstreamBlockState) (d : Segments)
    → get_at v d ≡ some seg
    → (seg' : UpstreamBlockState) × (get_at v (close_others u d).1 ≡ some seg')
unfolding close_others get_at
get_at-close_others u v seg [] e = absurd cc
get_at-close_others u v seg ((j, s) ∷ d) e = elim (Bool-cases (eqℤ j v)) [
  | inl here ↦ elim (Bool-cases (eqℤ j u || not s.is_open)) [
    | inl kept ↦ rw kept (s, get_at-here v j s (close_others u d).1 here)
    | inr stopped ↦ rw stopped (
      record s { is_open = false },
      get_at-here v j (record s { is_open = false }) (close_others u d).1 here,
    )
  ]
  | inr there ↦
      let (t, later) = get_at-close_others u v seg d (sym (get_at-there v j s d there) ∙ e) in
      elim (Bool-cases (eqℤ j u || not s.is_open)) [
        | inl kept ↦ rw kept (t, get_at-there v j s (close_others u d).1 there ∙ later)
        | inr stopped ↦
            rw stopped (
              t,
              get_at-there v j (record s { is_open = false }) (close_others u d).1 there ∙ later,
            )
      ]
]

-- A segment more.
pub set_at-IsFollowed :
    (u : ℤ) (seg : UpstreamBlockState) (up : Client) (d : Segments) (dropped : List ℤ)
    → has_index u up.seen_blocks ≡ true
    → IsFollowed up d dropped
    → IsFollowed up (set_at u seg d) dropped
set_at-IsFollowed u seg up d dropped known h = record {
  keys = All-set_at (λ k. has_index k up.seen_blocks ≡ true) u seg d known h.keys;
  present = λ v there. elim (h.present v there) [
    | inl gone ↦ inl gone
    | inr (s, e) ↦ elim (Bool-cases (eqℤ u v)) [
      | inl same ↦ inr (seg, get_at-set_at u v seg d ∙ rw same refl)
      | inr apart ↦ inr (s, get_at-set_at u v seg d ∙ rw apart e)
    ]
  ];
}

-- The upstream starts a block, which is dropped or has a segment.
pub start-IsFollowed :
    (u : ℤ) (up : Client) (d : Segments) (dropped more : List ℤ)
    → ((v : ℤ) → has_index v dropped ≡ true → has_index v more ≡ true)
    → (has_index u more ≡ true) ⊎ ((seg : UpstreamBlockState) × (get_at u d ≡ some seg))
    → All (λ e. has_index e.0 (u ∷ up.seen_blocks) ≡ true) d
    → ((v : ℤ)
        → eqℤ u v ≡ false
        → has_index v up.open_blocks ≡ true
        → (has_index v dropped ≡ true) ⊎ ((seg : UpstreamBlockState) × (get_at v d ≡ some seg)))
    → IsFollowed (with_block u up) d more
unfolding has_index any
start-IsFollowed u up d dropped more wider here keys others = record {
  keys = keys;
  present = λ v there. elim (Bool-cases (eqℤ u v)) [
    | inl same ↦
        subst
          (λ k. (has_index k more ≡ true) ⊎ ((seg : UpstreamBlockState) × (get_at k d ≡ some seg)))
          ((eqℤ_iff u v).0 same) here
    | inr apart ↦ elim (others v apart (ground arith)) [
      | inl gone ↦ inl (wider v gone)
      | inr found ↦ inr found
    ]
  ];
}

pub stop-IsFollowed :
    (u : ℤ) (up : Client) (d : Segments) (dropped : List ℤ)
    → IsFollowed up d dropped
    → IsFollowed (without_block u up) d dropped
stop-IsFollowed u up d dropped h = record {
  keys = h.keys;
  present = λ v there. h.present v (ground (arith, has_index-leave_out v u up.open_blocks));
}

pub close_others-IsFollowed :
    (u : ℤ) (up : Client) (d : Segments) (dropped : List ℤ)
    → IsFollowed up d dropped
    → IsFollowed up (close_others u d).1 dropped
close_others-IsFollowed u up d dropped h = record {
  keys = All-close_others (λ k. has_index k up.seen_blocks ≡ true) u d h.keys;
  present = λ v there. elim (h.present v there) [
    | inl gone ↦ inl gone
    | inr (s, e) ↦ inr (get_at-close_others u v s d e)
  ];
}
