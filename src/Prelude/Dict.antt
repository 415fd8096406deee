-- ===== src/Prelude/Dict.antt =====
-- Python's `dict` with string keys, as an association list in the order of insertion.
use mathlib.Core.Path.{◌≡◌, refl, ap, ◌∙◌}
use mathlib.Core.Logic.{inl, inr}
use mathlib.Core.Bool.{Bool, true, false}
use mathlib.Core.Option.{Option, none, some}
use mathlib.Core.List.{List, [], ◌∷◌}
use native.Mathlib.Omega.{arith}
use claude_chakra.Prelude.Tests.{if◌then◌else◌, Bool-cases}
use claude_chakra.Prelude.Strings.{Text, text_eq, text_eq_refl, text_eq_sound}

-- A key that equals one of two that differ is not the other.
pub text_eq_other :
    (j k k' : Text) → text_eq j k ≡ false → text_eq j k' ≡ true → text_eq k k' ≡ false
text_eq_other j k k' apart same = elim (Bool-cases (text_eq k k')) [
  | inl e ↦ absurd (
      let both : text_eq j k ≡ true =
        rw (text_eq_sound j k' same) (rw (text_eq_sound k k' e) (text_eq_refl k')) in
      ground arith)
  | inr e ↦ e
]

module _ {ℓ} {A : Type ℓ} where
  -- `d.get(k)`.
  unfoldable pub get_key : Text → List (Text × A) → Option A
  get_key k [] = none
  get_key k ((j, a) ∷ d) = if text_eq j k then some a else get_key k d

  -- `d[k] = a`: in place if the key is there, and at the end otherwise.
  unfoldable pub set_key : Text → A → List (Text × A) → List (Text × A)
  set_key k a [] = (k, a) ∷ []
  set_key k a ((j, b) ∷ d) =
      let d' = set_key k a d in if text_eq j k then (k, a) ∷ d else (j, b) ∷ d'

  unfoldable pub delete_key : Text → List (Text × A) → List (Text × A)
  delete_key k [] = []
  delete_key k ((j, b) ∷ d) = let d' = delete_key k d in if text_eq j k then d' else (j, b) ∷ d'

  abbrev pub is_some : Option A → Bool
  is_some none = false
  is_some (some a) = true

  -- `k in d`.
  unfoldable pub has_key : Text → List (Text × A) → Bool
  unfolding get_key
  has_key k d = is_some (get_key k d)

  pub get_key-set_key :
      (k k' : Text) (a : A) (d : List (Text × A))
      → get_key k' (set_key k a d) ≡ (if text_eq k k' then some a else get_key k' d)
  unfolding get_key set_key
  get_key-set_key k k' a [] = refl
  get_key-set_key k k' a ((j, b) ∷ d) = elim (Bool-cases (text_eq j k)) [
    | inl same ↦ rw same (
        rw (← text_eq_sound j k same)
          (elim (Bool-cases (text_eq j k')) [ inl e ↦ rw e refl | inr e ↦ rw e refl ]))
    | inr apart ↦ rw apart (elim (Bool-cases (text_eq j k')) [
      | inl e ↦ rw e (rw (text_eq_other j k k' apart e) refl)
      | inr e ↦ rw e (get_key-set_key k k' a d)
    ])
  ]

  pub get_key-delete_key :
      (k k' : Text) (d : List (Text × A))
      → get_key k' (delete_key k d) ≡ (if text_eq k k' then none else get_key k' d)
  unfolding get_key delete_key
  get_key-delete_key k k' [] = ground arith
  get_key-delete_key k k' ((j, b) ∷ d) = elim (Bool-cases (text_eq j k)) [
    | inl same ↦
        let e = ap (λ x. text_eq x k') (text_eq_sound j k same) in
        rw same (
          get_key-delete_key k k' d
          ∙ rw e (elim (Bool-cases (text_eq k k')) [
            | inl here ↦ rw here refl
            | inr there ↦ rw there refl
          ]))
    | inr apart ↦ rw apart (elim (Bool-cases (text_eq j k')) [
      | inl e ↦ rw e (rw (text_eq_other j k k' apart e) refl)
      | inr e ↦ rw e (get_key-delete_key k k' d)
    ])
  ]
