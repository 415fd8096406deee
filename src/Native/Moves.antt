-- ===== src/Native/Moves.antt =====
-- One event of an upstream that keeps to what a reader expects, and what the client gets for it.
use mathlib.Core.Option.{some-injective}
use claude_chakra.Prelude.{
  ◌≡◌, refl, sym, ◌∙◌, ap, inl, inr, ◌⊎◌, Bool, true, false, some, List, [], ◌∷◌, any, All, All-map,
  Bool-cases, arith, Text,
}
use claude_chakra.Prelude.Int.{ℤ, pos, eqℤ, eqℤ_iff}
use claude_chakra.Native.{
  NativeBlock, NativeDelta, content_block_start, content_block_delta, UpstreamBlockState,
  NativeSseBlockPolicyState, get_at, set_at, has_index, close_others,
  synthetic_close_other_open_blocks, allocate_new_segment, new_segment,
}
use claude_chakra.Native.Transform.{
  Transformed, begin_block, open_with, delta_for, delta_of_kind, stop_for, transform_stop, sent_of,
  synthetic_start_content_block, str_of_int, stored_tool,
}
use claude_chakra.Native.Client.{Client, and_then, watch_all, watch_all-append}
use claude_chakra.Native.Closing.{opens-get_at}
use claude_chakra.Native.Tracking.{
  IsTracked, with_block, without_block, watch-start, watch-delta, watch-stop, set_new-IsTracked,
  set_closed-IsTracked, close_others-IsTracked,
}
use claude_chakra.Native.Following.{
  IsFollowed, get_at-set_at, All-set_at, get_at-All, All-close_others, set_at-IsFollowed,
  start-IsFollowed, stop-IsFollowed, get_at-close_others,
}

-- The state between an upstream and a client.
pub record InStep (up : Client) (s : NativeSseBlockPolicyState) (down : Client) : Type 0 where
  pub tracked : IsTracked s.next_index s.by_upstream down
  pub followed : IsFollowed up s.by_upstream s.dropped_indexes

-- The client takes what is sent, and stays in step.
abbrev pub Follows : Client → Transformed → Client → Type 0
Follows up p down =
    (down' : Client) × (watch_all (sent_of p.0) down ≡ some down') × InStep up p.1 down'

self_eq : (i : ℤ) → eqℤ i i ≡ true
self_eq i = (eqℤ_iff i i).1 refl

-- An index that was not seen is not among the segments.
unseen_apart :
    (i j : ℤ) (xs : List ℤ) → has_index i xs ≡ false → has_index j xs ≡ true → eqℤ j i ≡ false
unseen_apart i j xs absent there = elim (Bool-cases (eqℤ j i)) [
  | inl same ↦ absurd (
      let e = ap (λ k. has_index k xs) ((eqℤ_iff j i).0 same) in
      let f = sym absent ∙ (sym e ∙ there) in cc)
  | inr apart ↦ apart
]

module _ (i : ℤ) (up : Client) (s : NativeSseBlockPolicyState) (down : Client)
    (h : InStep up s down) where
  module _ (unseen : has_index i up.seen_blocks ≡ false) where
    apart_from : All (λ e. eqℤ e.0 i ≡ false) s.by_upstream
    apart_from =
        All-map s.by_upstream (λ e there. unseen_apart i e.0 up.seen_blocks unseen there)
          h.followed.keys

    wider : (k : ℤ) → has_index k up.seen_blocks ≡ true → has_index k (i ∷ up.seen_blocks) ≡ true
    unfolding has_index any
    wider k there = ground (arith, there)

    -- The start of a block that is dropped.
    pub start-dropped :
        InStep (with_block i up) (record s { dropped_indexes = i ∷ s.dropped_indexes }) down
    unfolding has_index any
    start-dropped = record {
      tracked = h.tracked;
      followed =
          start-IsFollowed i up s.by_upstream s.dropped_indexes (i ∷ s.dropped_indexes)
            (λ v there. ground (arith, there)) (inl (ground (arith, self_eq i)))
            (All-map s.by_upstream (λ e there. wider e.0 there) h.followed.keys)
            (λ v apart there. h.followed.present v there);
    }

    -- The start of a block that is kept: the others are stopped first.
    pub start-kept :
        (block : NativeBlock) (t : Text)
        → Follows (with_block i up) (begin_block i block (some t) s) down
    unfolding begin_block synthetic_close_other_open_blocks allocate_new_segment sent_of watch_all
        has_index any
    start-kept block t =
        let d' = (close_others i s.by_upstream).1 in
        let (o, stopped, tracked) =
          close_others-IsTracked i s.next_index s.by_upstream down h.tracked apart_from in
        let mid = record down { open_blocks = o } in
        let apart' = All-close_others (λ k. eqℤ k i ≡ false) i s.by_upstream apart_from in
        let seg = new_segment t s.next_index (some block) in
        let unseen' = tracked.fresh s.next_index (omega arith) in
        let unopened : (old : UpstreamBlockState) → get_at i d' ≡ some old → old.is_open ≡ false =
          λ old e.
            absurd (
              let f = sym (get_at-All (λ k. eqℤ k i ≡ false) i old d' apart' e) ∙ self_eq i in
              cc) in
        (
          with_block (pos s.next_index) mid,
          watch_all-append (close_others i s.by_upstream).0
                (content_block_start (some (pos s.next_index)) (some block) ∷ []) down mid stopped
              ∙ ap (λ r. and_then r (watch_all []))
                  (watch-start (pos s.next_index) block mid unseen'),
          record {
            tracked = set_new-IsTracked i seg s.next_index d' mid tracked refl refl unopened;
            followed =
                start-IsFollowed i up (set_at i seg d') s.dropped_indexes s.dropped_indexes
                  (λ v there. there) (inr (seg, get_at-set_at i i seg d' ∙ rw (self_eq i) refl))
                  (All-set_at (λ k. has_index k (i ∷ up.seen_blocks) ≡ true) i seg d' head_there
                    (All-close_others (λ k. has_index k (i ∷ up.seen_blocks) ≡ true) i s.by_upstream
                      (All-map s.by_upstream (λ e there. wider e.0 there) h.followed.keys)))
                  (λ v apart there. others v apart (h.followed.present v there));
          },
        )
      where
        head_there : has_index i (i ∷ up.seen_blocks) ≡ true
        head_there = ground (arith, self_eq i)

        others :
            (v : ℤ)
            → eqℤ i v ≡ false
            → (has_index v s.dropped_indexes ≡ true)
              ⊎ ((seg : UpstreamBlockState) × (get_at v s.by_upstream ≡ some seg))
            → (has_index v s.dropped_indexes ≡ true)
              ⊎ ((seg : UpstreamBlockState) × (get_at v (
                      set_at i
                        (new_segment t s.next_index (some block))
                        (close_others i s.by_upstream).1)
                    ≡ some seg))
        others v apart (inl gone) = inl gone
        others v apart (inr (old, e)) =
            let (old', e') = get_at-close_others i v old s.by_upstream e in
            inr (old', get_at-set_at i v _ _ ∙ rw apart e')

  module _ (there : has_index i up.open_blocks ≡ true) where
    -- What is there for an open upstream block that was not dropped.
    segment_there :
        has_index i s.dropped_indexes ≡ false
        → (seg : UpstreamBlockState) × (get_at i s.by_upstream ≡ some seg)
    segment_there kept = elim (h.followed.present i there) [
      | inl gone ↦ absurd (let f = sym kept ∙ gone in cc)
      | inr found ↦ found
    ]

    opened_at :
        (seg : UpstreamBlockState)
        → get_at i s.by_upstream ≡ some seg
        → seg.is_open ≡ true
        → has_index (pos seg.down_index) down.open_blocks ≡ true
    opened_at seg found on =
        h.tracked.same (pos seg.down_index) ∙ opens-get_at i seg s.by_upstream found on

    -- A delta goes to the open segment, or to a new one in place of a closed one.
    pub delta-followed :
        (delta : NativeDelta) (k : Text)
        → has_index i s.dropped_indexes ≡ false
        → Follows up (delta_of_kind i delta (some k) s) down
    unfolding delta_of_kind delta_for open_with allocate_new_segment sent_of watch_all has_index any
    delta-followed delta k kept =
        let (seg, found) = segment_there kept in
        rw found (elim (Bool-cases seg.is_open) [
          | inl on ↦ rw on (
            down,
            ap (λ r. and_then r (watch_all []))
                (watch-delta (pos seg.down_index) delta down (opened_at seg found on)),
            h,
          )
          | inr off ↦ rw off (
              let block =
                synthetic_start_content_block k (str_of_int i) (stored_tool seg.last_start_block) in
              let n = s.next_index in
              let segment = new_segment k n seg.last_start_block in
              let closed : (old : UpstreamBlockState)
                  → get_at i s.by_upstream ≡ some old
                  → old.is_open ≡ false =
                λ old e. ap (λ l. l.is_open) (some-injective _ _ (sym e ∙ found)) ∙ off in
              (
                with_block (pos n) down,
                ap
                      (λ r.
                        and_then r
                          (watch_all (content_block_delta (some (pos n)) (some delta) ∷ [])))
                      (watch-start (pos n) block down (h.tracked.fresh n (omega arith)))
                    ∙ ap (λ r. and_then r (watch_all []))
                        (watch-delta (pos n) delta (with_block (pos n) down)
                          (ground (arith, self_eq (pos n)))),
                record {
                  tracked =
                      set_new-IsTracked i segment n s.by_upstream down h.tracked refl refl closed;
                  followed =
                      set_at-IsFollowed i segment up s.by_upstream s.dropped_indexes
                        (get_at-All (λ j. has_index j up.seen_blocks ≡ true) i seg s.by_upstream
                          h.followed.keys found)
                        h.followed;
                },
              ))
        ])

    -- A stop is for the open segment, and nothing is sent otherwise.
    pub stop-followed :
        (thinking : Bool) → Follows (without_block i up) (transform_stop thinking i s) down
    unfolding transform_stop stop_for sent_of watch_all
    stop-followed thinking = elim (Bool-cases (has_index i s.dropped_indexes)) [
      | inl gone ↦ rw gone (down, refl, quiet)
      | inr kept ↦ rw kept (elim (Bool-cases (has_index i s.pending_suppressed_stops)) [
        | inl waits ↦
            rw waits (down, refl, record { tracked = quiet.tracked; followed = quiet.followed })
        | inr fresh ↦ rw fresh (
            let (seg, found) = segment_there kept in
            rw found (elim (Bool-cases seg.is_open) [
              | inl on ↦ rw on (
                  let closed = record seg { is_open = false } in
                  let known =
                    get_at-All (λ j. has_index j up.seen_blocks ≡ true) i seg s.by_upstream
                      h.followed.keys found in
                  (
                    without_block (pos seg.down_index) down,
                    ap (λ r. and_then r (watch_all []))
                        (watch-stop (pos seg.down_index) down (opened_at seg found on)),
                    record {
                      tracked =
                          set_closed-IsTracked i seg s.next_index s.by_upstream down h.tracked found
                            on;
                      followed =
                          stop-IsFollowed i up (set_at i closed s.by_upstream) s.dropped_indexes (
                            set_at-IsFollowed i closed up s.by_upstream s.dropped_indexes known
                              h.followed);
                    },
                  ))
              | inr off ↦ rw off (down, refl, quiet)
            ]))
      ])
    ]
      where
        quiet : InStep (without_block i up) s down
        quiet = record {
          tracked = h.tracked;
          followed = stop-IsFollowed i up s.by_upstream s.dropped_indexes h.followed;
        }
