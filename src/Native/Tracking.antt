-- ===== src/Native/Tracking.antt =====
-- The client in step with the segments: what it has open are the open segments.
use claude_chakra.Prelude.{
  ℕ, ◌+◌, ◌≤◌, ◌≡◌, refl, sym, ◌∙◌, ap, inl, inr, true, false, not, ◌&&◌, ◌||◌, some, List, [], ◌∷◌,
  map, any, All, Bool-cases, arith,
}
use claude_chakra.Prelude.Int.{ℤ, pos, eqℤ, eqℤ_iff}
use claude_chakra.Native.{
  NativeBlock, NativeDelta, content_block_start, content_block_delta, content_block_stop,
  UpstreamBlockState, get_at, set_at, has_index, leave_out, close_others,
}
use claude_chakra.Native.Client.{Client, watch, watch_all}
use claude_chakra.Native.Segments.{
  Segments, opens, IsDistinct, has_index-leave_out, close_others-closes, opens-set_new,
  IsDistinct-set_new,
}
use claude_chakra.Native.Closing.{without_head, opens-set_closed, IsDistinct-set_closed}

-- `n` is the index that is given next.
pub record IsTracked (n : ℕ) (d : Segments) (c : Client) : Type 0 where
  pub distinct : IsDistinct (opens d)
  pub same : (i : ℤ) → has_index i c.open_blocks ≡ has_index i (opens d)
  pub fresh : (m : ℕ) → n ≤ m → has_index (pos m) c.seen_blocks ≡ false
  pub seen : (i : ℤ) → has_index i c.open_blocks ≡ true → has_index i c.seen_blocks ≡ true

abbrev pub with_block : ℤ → Client → Client
with_block i c = record { open_blocks = i ∷ c.open_blocks; seen_blocks = i ∷ c.seen_blocks }

pub watch-start :
    (i : ℤ) (block : NativeBlock) (c : Client)
    → has_index i c.seen_blocks ≡ false
    → watch (content_block_start (some i) (some block)) c ≡ some (with_block i c)
unfolding watch
watch-start i block c new = rw new refl

pub watch-delta :
    (i : ℤ) (delta : NativeDelta) (c : Client)
    → has_index i c.open_blocks ≡ true
    → watch (content_block_delta (some i) (some delta)) c ≡ some c
unfolding watch
watch-delta i delta c there = rw there refl

abbrev pub without_block : ℤ → Client → Client
without_block i c = record c { open_blocks = leave_out i c.open_blocks }

pub watch-stop :
    (i : ℤ) (c : Client)
    → has_index i c.open_blocks ≡ true
    → watch (content_block_stop (some i)) c ≡ some (without_block i c)
unfolding watch
watch-stop i c there = rw there refl

-- A new segment is open at the client too.
pub set_new-IsTracked :
    (u : ℤ) (seg : UpstreamBlockState) (n : ℕ) (d : Segments) (c : Client)
    → IsTracked n d c
    → seg.is_open ≡ true
    → seg.down_index ≡ n
    → ((old : UpstreamBlockState) → get_at u d ≡ some old → old.is_open ≡ false)
    → IsTracked (n + 1) (set_at u seg d) (with_block (pos n) c)
unfolding has_index any
set_new-IsTracked u seg n d c h on index closed =
    let unopened : has_index (pos seg.down_index) (opens d) ≡ false =
      elim (Bool-cases (has_index (pos n) c.open_blocks)) [
        | inl there ↦ absurd (let f = sym (h.fresh n (omega arith)) ∙ h.seen (pos n) there in cc)
        | inr none_there ↦
            ap (λ k. has_index (pos k) (opens d)) index ∙ (sym (h.same (pos n)) ∙ none_there)
      ] in
    record {
      distinct = IsDistinct-set_new u seg d on closed unopened h.distinct;
      same = λ i.
          ap (λ b. eqℤ (pos n) i || b) (h.same i)
          ∙ (ap (λ k. eqℤ (pos k) i || has_index i (opens d)) (sym index)
              ∙ sym (opens-set_new u i seg d on closed));
      fresh = λ m le. ground (arith, h.fresh m (omega arith));
      seen = λ i there. elim (Bool-cases (eqℤ (pos n) i)) [
        | inl here ↦ rw here refl
        | inr apart ↦
            rw apart (h.seen i (sym (ap (λ b. b || has_index i c.open_blocks) apart) ∙ there))
      ];
    }

-- A segment that is stopped is closed at the client too.
pub set_closed-IsTracked :
    (u : ℤ) (seg : UpstreamBlockState) (n : ℕ) (d : Segments) (c : Client)
    → IsTracked n d c
    → get_at u d ≡ some seg
    → seg.is_open ≡ true
    → IsTracked n
        (set_at u (record seg { is_open = false }) d)
        (without_block (pos seg.down_index) c)
set_closed-IsTracked u seg n d c h e on = record {
  distinct = IsDistinct-set_closed u seg d e on h.distinct;
  same = λ i.
      has_index-leave_out i (pos seg.down_index) c.open_blocks
      ∙ (ap (λ b. b && not (eqℤ (pos seg.down_index) i)) (h.same i)
          ∙ sym (opens-set_closed u i seg d e on h.distinct));
  fresh = h.fresh;
  seen =
      λ i there. h.seen i ground (arith, has_index-leave_out i (pos seg.down_index) c.open_blocks);
}

-- The stops of all that is open.
pub watch-stops :
    (xs : List ℤ) (c : Client)
    → IsDistinct xs
    → ((i : ℤ) → has_index i c.open_blocks ≡ has_index i xs)
    → (o : List ℤ) × (watch_all (map (λ i. content_block_stop (some i)) xs) c
        ≡ some (record c { open_blocks = o }))
      × ((i : ℤ) → has_index i o ≡ false)
unfolding watch_all IsDistinct has_index any
watch-stops [] c dist same = (c.open_blocks, refl, same)
watch-stops (x ∷ xs) c dist same =
    let first = watch-stop x c (same x ∙ ground (arith, (eqℤ_iff x x).1 refl)) in
    let (o, e, nothing) = watch-stops xs (without_block x c) dist.1 λ i.
      has_index-leave_out i x c.open_blocks
      ∙ (ap (λ b. b && not (eqℤ x i)) (same i) ∙ sym (without_head x i xs dist.0)) in
    (o, rw first e, nothing)

-- The loop over the other segments leaves the client with nothing open.
pub close_others-IsTracked :
    (u : ℤ) (n : ℕ) (d : Segments) (c : Client)
    → IsTracked n d c
    → All (λ e. eqℤ e.0 u ≡ false) d
    → (o : List ℤ) × (watch_all (close_others u d).0 c ≡ some (record c { open_blocks = o }))
      × IsTracked n (close_others u d).1 (record c { open_blocks = o })
unfolding IsDistinct has_index any
close_others-IsTracked u n d c h apart =
    let (stops, nothing) = close_others-closes u d apart in
    let (o, e, empty) = watch-stops (opens d) c h.distinct h.same in
    (
      o,
      ap (λ es. watch_all es c) stops ∙ e,
      record {
        distinct = rw nothing tt;
        same = λ i. empty i ∙ rw nothing refl;
        fresh = h.fresh;
        seen = λ i there. absurd (let f = sym (empty i) ∙ there in cc);
      },
    )
