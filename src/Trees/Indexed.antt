-- ===== src/Trees/Indexed.antt =====
-- The set and the deque of the queue stay together while no item is added twice.
use claude_chakra.Prelude.{
  ◌≡◌, refl, sym, ◌∙◌, ap, inl, inr, Bool, true, false, ◌||◌, ◌&&◌, not, List, [], ◌∷◌, ◌++◌,
  filter, any, Text, text_eq, text_eq_sound, text_eq_iff, arith, Bool-cases,
}
use claude_chakra.Trees.Queue.{SnapshotQueue, contains, discard, put, remove_if_present}

-- No item stands twice.
unfoldable pub IsDistinct : List Text → Type 0
IsDistinct [] = Unit
IsDistinct (x ∷ xs) = (contains x xs ≡ false) × IsDistinct xs

-- The set has the items of the deque, which are distinct.
pub record IsIndexed (q : SnapshotQueue) : Type 0 where
  pub same : (x : Text) → contains x q.set ≡ contains x q.deque
  pub distinct : IsDistinct q.deque

pub contains-append :
    (x : Text) (xs ys : List Text) → contains x (xs ++ ys) ≡ contains x xs || contains x ys
unfolding contains any
contains-append x [] ys = refl
contains-append x (y ∷ xs) ys = ground (arith, contains-append x xs ys)

and_not : (a b c : Bool) → a ≡ c → b && not c ≡ (a || b) && not c
and_not true b c e = ground arith
and_not false b c e = ground arith

or_not : (a b c : Bool) → (a ≡ true → c ≡ false) → a || (b && not c) ≡ (a || b) && not c
or_not true b c h = rw (h refl) refl
or_not false b c h = refl

differ : (x y z : Text) → text_eq z y ≡ false → text_eq z x ≡ true → text_eq y x ≡ false
differ x y z apart same = elim (Bool-cases (text_eq y x)) [
  | inl e ↦ absurd (ground (arith, text_eq_iff z y, text_eq_iff z x, text_eq_iff y x))
  | inr e ↦ e
]

pub contains-discard :
    (x y : Text) (xs : List Text) → contains x (discard y xs) ≡ contains x xs && not (text_eq y x)
unfolding contains discard any filter
contains-discard x y [] = ground arith
contains-discard x y (z ∷ xs) = elim (Bool-cases (text_eq z y)) [
  | inl same ↦ rw same (
      contains-discard x y xs
      ∙ and_not (text_eq z x) (contains x xs) (text_eq y x)
          (ap (λ u. text_eq u x) (text_eq_sound z y same)))
  | inr apart ↦ rw apart (
      ap (λ b. text_eq z x || b) (contains-discard x y xs)
      ∙ or_not (text_eq z x) (contains x xs) (text_eq y x) (differ x y z apart))
]

discard-absent : (x : Text) (xs : List Text) → contains x xs ≡ false → discard x xs ≡ xs
unfolding contains discard any filter
discard-absent x [] h = refl
discard-absent x (y ∷ xs) h = elim (Bool-cases (text_eq y x)) [
  | inl same ↦ absurd (ground arith)
  | inr apart ↦ rw apart (ap (λ r. y ∷ r) (discard-absent x xs (ground arith)))
]

IsDistinct-discard : (x : Text) (xs : List Text) → IsDistinct xs → IsDistinct (discard x xs)
unfolding discard filter IsDistinct
IsDistinct-discard x [] h = tt
IsDistinct-discard x (y ∷ xs) h = elim (Bool-cases (text_eq y x)) [
  | inl same ↦ rw same (IsDistinct-discard x xs h.1)
  | inr apart ↦ rw apart (contains-discard y x xs ∙ rw h.0 refl, IsDistinct-discard x xs h.1)
]

IsDistinct-append :
    (x : Text) (xs : List Text) → contains x xs ≡ false → IsDistinct xs → IsDistinct (xs ++ x ∷ [])
unfolding IsDistinct contains any
IsDistinct-append x [] absent h = (refl, tt)
IsDistinct-append x (y ∷ xs) absent h = (
  contains-append y xs (x ∷ []) ∙ ground (arith, h.0, text_eq_iff x y, text_eq_iff y x),
  IsDistinct-append x xs (ground arith) h.1,
)

pub put-IsIndexed :
    (x : Text) (q : SnapshotQueue) → contains x q.deque ≡ false → IsIndexed q → IsIndexed (put x q)
unfolding contains any
put-IsIndexed x q absent h = record {
  same = λ y. ground (arith, contains-append y q.deque (x ∷ []), h.same y);
  distinct = IsDistinct-append x q.deque absent h.distinct;
}

-- An item that is not in the set is not in the deque, so nothing had to be removed.
pub remove_if_present-IsIndexed :
    (x : Text) (q : SnapshotQueue)
    → IsIndexed q
    → (r : SnapshotQueue) × (remove_if_present x q ≡ (contains x q.deque, r))
      × (r.deque ≡ discard x q.deque)
      × IsIndexed r
unfolding remove_if_present
remove_if_present-IsIndexed x q h = elim (Bool-cases (contains x q.set)) [
  | inl here ↦ (
    record { deque = discard x q.deque; set = discard x q.set },
    rw here (
        ap (λ b. (b, record { deque = discard x q.deque; set = discard x q.set }))
          (sym here ∙ h.same x)),
    refl,
    record {
      same = λ y. contains-discard y x q.set ∙ (rw (h.same y) (sym (contains-discard y x q.deque)));
      distinct = IsDistinct-discard x q.deque h.distinct;
    },
  )
  | inr gone ↦ (
    q,
    rw gone (ap (λ b. (b, q)) (sym gone ∙ h.same x)),
    sym (discard-absent x q.deque (sym (h.same x) ∙ gone)),
    h,
  )
]

pub popped-IsIndexed :
    (x : Text) (rest set : List Text)
    → IsIndexed (record { deque = x ∷ rest; set = set })
    → IsIndexed (record { deque = rest; set = discard x set })
unfolding contains any IsDistinct
popped-IsIndexed x rest set h = record {
  same = λ y. contains-discard y x set ∙ elim (Bool-cases (text_eq x y)) [
    | inl e ↦
        let gone : contains y rest ≡ false =
          ap (λ z. contains z rest) (sym (text_eq_sound x y e)) ∙ h.distinct.0 in
        ground arith
    | inr e ↦ ground (arith, h.same y)
  ];
  distinct = h.distinct.1;
}
