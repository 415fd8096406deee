-- ===== src/SlidingWindow/Wait.antt =====
-- How long `acquire` waits: the wait that a round asks for is exact, and two rounds are enough for
-- a task on its own.
use claude_chakra.Prelude.{
  ℕ, suc, ◌+◌, ◌≤◌, ◌<◌, ◌≡◌, ◌↔◌, refl, sym, ◌∙◌, ap, inl, inr, none, some, List, [], ◌∷◌, arith,
  tests, Bool-cases, Option-cases, leb→le, leb→lt, leb, ltb, length, length-append, All, All-append,
}
use claude_chakra.SlidingWindow.{Limiter, prune, settle, round, acquire}

-- The deque holds at most `rate_limit` times, none of them later than `now`.
pub record IsValid (now : ℕ) (l : Limiter) : Type 0 where
  pub positive : 0 < l.rate_limit
  pub bounded : length l.times ≤ l.rate_limit
  pub past : All (λ t. t ≤ now) l.times

length-prune-le : (now w : ℕ) (ts : List ℕ) → length (prune now w ts) ≤ length ts
unfolding prune
length-prune-le now w [] = omega arith
length-prune-le now w (t ∷ ts) = ground (arith, length-prune-le now w ts)

prune-past : (m now w : ℕ) (ts : List ℕ) → All (λ t. t ≤ m) ts → All (λ t. t ≤ m) (prune now w ts)
unfolding prune
prune-past m now w [] h = tt
prune-past m now w (t ∷ ts) h = elim (Bool-cases (leb (t + w) now)) [
  | inl old ↦ rw old (prune-past m now w ts h.1)
  | inr young ↦ rw young h
]

-- What is left after pruning begins inside the window.
prune-head : (now w : ℕ) (ts : List ℕ) {t : ℕ} {r : List ℕ} → prune now w ts ≡ t ∷ r → now < t + w
unfolding prune
prune-head now w [] e = cc
prune-head now w (t ∷ ts) {t = u} {r} e = elim (Bool-cases (leb (t + w) now)) [
  | inl old ↦ prune-head now w ts {t = u} {r = r} (ground arith)
  | inr young ↦ ground arith
]

weaken : {m now : ℕ} (ts : List ℕ) → m ≤ now → All (λ t. t ≤ m) ts → All (λ t. t ≤ now) ts
weaken [] h out = tt
weaken (t ∷ ts) h out = (omega arith, weaken ts h out.1)

module _ (now : ℕ) (l : Limiter) (v : IsValid now l) where
  -- A round keeps the invariant, whether or not it takes a slot.
  pub round-IsValid : (later : ℕ) → now ≤ later → IsValid later (round later l).1
  unfolding round settle
  round-IsValid later h =
      let left = prune later l.rate_window l.times in
      let past = weaken left h (prune-past now later l.rate_window l.times v.past) in
      elim (Bool-cases (ltb (length left) l.rate_limit)) [
        | inl room ↦ rw room (record {
          positive = v.positive;
          bounded = omega (tests, length-append left (later ∷ []));
          past = All-append _ left (later ∷ []) past (omega arith, tt);
        })
        | inr full ↦ rw full (record {
          positive = v.positive;
          bounded = omega (arith, v.bounded, length-prune-le later l.rate_window l.times);
          past = past;
        })
      ]

nonempty : (ts : List ℕ) → 0 < length ts → (t : ℕ) × (r : List ℕ) × (ts ≡ t ∷ r)
nonempty [] h = absurd (omega arith)
nonempty (t ∷ r) h = (t, r, refl)

settle-taken : (now : ℕ) (l : Limiter) → ((settle now l).0 ≡ none) ↔ (length l.times < l.rate_limit)
unfolding settle
settle-taken now l = (λ h. ground arith, λ h. ground arith)

prune-out : (now w t : ℕ) (r : List ℕ) → t + w ≤ now → prune now w (t ∷ r) ≡ prune now w r
unfolding prune
prune-out now w t r h = ground arith

prune-inside : (now w t : ℕ) (r : List ℕ) → now < t + w → prune now w (t ∷ r) ≡ t ∷ r
unfolding prune
prune-inside now w t r h = ground arith

-- A full deque gives a slot once its first time has left the window, and not before.
front_round :
    (later t : ℕ) (r : List ℕ) (l : Limiter)
    → l.times ≡ t ∷ r
    → length l.times ≡ l.rate_limit
    → ((round later l).0 ≡ none) ↔ (t + l.rate_window ≤ later)
unfolding round
front_round later t r l e full =
    let w = l.rate_window in
    let size : suc (length r) ≡ l.rate_limit = ap length (sym e) ∙ full in
    let s = settle-taken later (record l { times = prune later w l.times }) in
    elim (Bool-cases (leb (t + w) later)) [
      | inl out ↦
          let left = ap length (ap (prune later w) e ∙ prune-out later w t r (leb→le _ _ out)) in
          (λ _. leb→le _ _ out, λ _. s.1 (omega (arith, left, length-prune-le later w r)))
      | inr inside ↦
          let left =
            ap length (ap (prune later w) e ∙ prune-inside later w t r (leb→lt _ _ inside)) in
          (λ taken. absurd (omega (arith, s.0 taken, left)), λ le. absurd (omega (tests, inside)))
    ]

acquire-at_once :
    (f now : ℕ) (l : Limiter)
    → (round now l).0 ≡ none
    → acquire (suc f) now l ≡ (some now, (round now l).1)
unfolding acquire
acquire-at_once f now l e = ground arith

acquire-again :
    (f now w : ℕ) (l : Limiter)
    → (round now l).0 ≡ some w
    → acquire (suc f) now l ≡ acquire f (now + w) (round now l).1
unfolding acquire
acquire-again f now w l e = ground arith

-- What a refused round leaves behind.
record IsRefused (now w : ℕ) (l l' : Limiter) : Type 0 where
  first : ℕ
  rest : List ℕ
  times : l'.times ≡ first ∷ rest
  limit : l'.rate_limit ≡ l.rate_limit
  window : l'.rate_window ≡ l.rate_window
  full : length l'.times ≡ l'.rate_limit
  inside : now < first + l.rate_window
  wait : now + w ≡ first + l.rate_window
  early : first ≤ now

refused :
    (now w : ℕ) (l : Limiter)
    → IsValid now l
    → (round now l).0 ≡ some w
    → IsRefused now w l (round now l).1
unfolding round settle
refused now w l v e =
    elim (Bool-cases (ltb (length (prune now l.rate_window l.times)) l.rate_limit)) [
      | inl room ↦ absurd (ground arith)
      | inr full ↦
          let left = prune now l.rate_window l.times in
          let (t, r, is) = nonempty left (omega (tests, v.positive)) in
          let inside = prune-head now l.rate_window l.times is in
          let past = prune-past now now l.rate_window l.times v.past in
          rw full (record {
            first = t;
            rest = r;
            times = is;
            limit = refl;
            window = refl;
            full = omega (tests, v.bounded, length-prune-le now l.rate_window l.times);
            inside = inside;
            wait = ground arith;
            early = (rw is at past).0;
          })
    ]

-- If a round asks for a wait, a later round on the same deque succeeds exactly when that wait is over.
pub wait_exact :
    (now later w : ℕ) (l : Limiter)
    → IsValid now l
    → (round now l).0 ≡ some w
    → now ≤ later
    → ((round later (round now l).1).0 ≡ none) ↔ (now + w ≤ later)
wait_exact now later w l v e h =
    let f = refused now w l v e in
    let front = front_round later f.first f.rest (round now l).1 f.times f.full in
    (
      λ taken. omega (arith, front.0 taken, f.window, f.wait),
      λ over. front.1 (omega (arith, f.window, f.wait)),
    )

pub IsValid-later : {now later : ℕ} {l : Limiter} → now ≤ later → IsValid now l → IsValid later l
IsValid-later {l = l} h v = record {
  positive = v.positive;
  bounded = v.bounded;
  past = weaken l.times h v.past;
}

-- A task on its own has its slot after at most one sleep, of at most one window, and leaves the
-- limiter valid.
pub acquire-total :
    (now : ℕ) (l : Limiter)
    → IsValid now l
    → (t : ℕ) × (l' : Limiter) × (acquire 2 now l ≡ (some t, l'))
      × (now ≤ t)
      × (t ≤ now + l.rate_window)
      × IsValid t l'
acquire-total now l v = elim (Option-cases (round now l).0) [
  | inl taken ↦ (
    now,
    (round now l).1,
    acquire-at_once 1 now l taken,
    omega arith,
    omega arith,
    round-IsValid now l v now (omega arith),
  )
  | inr (w, e) ↦
      let f = refused now w l v e in
      let again = (wait_exact now (now + w) w l v e (omega arith)).1 (omega arith) in
      let v' = round-IsValid now l v now (omega arith) in
      (
        now + w,
        (round (now + w) (round now l).1).1,
        acquire-again 1 now w l e ∙ acquire-at_once 0 (now + w) (round now l).1 again,
        omega arith,
        omega (arith, f.wait, f.early),
        round-IsValid now (round now l).1 v' (now + w) (omega arith),
      )
]
