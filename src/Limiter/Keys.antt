-- ===== src/Limiter/Keys.antt =====
-- Dictionaries whose keys stand once: what appending, prepending and taking the first leave.
use claude_chakra.Prelude.{
  ◌≡◌, refl, sym, ◌∙◌, ap, inl, inr, true, false, none, some, List, [], ◌∷◌, ◌++◌, map,
  if◌then◌else◌, Text, text_eq, text_eq_refl, text_eq_sound, get_key, set_key, get_key-set_key,
  text_eq_other, Bool-cases,
}

text_eq_swap : (j k : Text) → text_eq j k ≡ false → text_eq k j ≡ false
text_eq_swap j k apart = elim (Bool-cases (text_eq k j)) [
  | inl same ↦ absurd (
      let e : text_eq j k ≡ true = rw (text_eq_sound k j same) (text_eq_refl j) in
      let f = sym apart ∙ e in cc)
  | inr differs ↦ differs
]

module _ {ℓ} {A : Type ℓ} where
  pub get_key-here :
      (i k : Text) (a : A) (d : List (Text × A))
      → text_eq i k ≡ true
      → get_key k ((i, a) ∷ d) ≡ some a
  unfolding get_key
  get_key-here i k a d same = rw same refl

  pub get_key-there :
      (i k : Text) (a : A) (d : List (Text × A))
      → text_eq i k ≡ false
      → get_key k ((i, a) ∷ d) ≡ get_key k d
  unfolding get_key
  get_key-there i k a d apart = rw apart refl

  -- No key stands twice.
  unfoldable pub HasUniqueKeys : List (Text × A) → Type ℓ
  HasUniqueKeys [] = Unit
  HasUniqueKeys ((k, a) ∷ d) = (get_key k d ≡ none) × HasUniqueKeys d

  unfoldable pub keys : List (Text × A) → List Text
  keys d = map (λ e. e.0) d

  pub get_key-append :
      (j k : Text) (a : A) (d : List (Text × A))
      → get_key k d ≡ none
      → get_key j (d ++ (k, a) ∷ []) ≡ (if text_eq k j then some a else get_key j d)
  unfolding get_key
  get_key-append j k a [] h = refl
  get_key-append j k a ((i, b) ∷ d) h = elim (Bool-cases (text_eq i k)) [
    | inl same ↦ absurd (let f = sym (get_key-here i k b d same) ∙ h in cc)
    | inr apart ↦ elim (Bool-cases (text_eq i j)) [
      | inl here ↦ rw here (rw (text_eq_other i k j apart here) refl)
      | inr there ↦ rw there (get_key-append j k a d (sym (get_key-there i k b d apart) ∙ h))
    ]
  ]

  pub HasUniqueKeys-append :
      (k : Text) (a : A) (d : List (Text × A))
      → get_key k d ≡ none
      → HasUniqueKeys d
      → HasUniqueKeys (d ++ (k, a) ∷ [])
  unfolding HasUniqueKeys get_key
  HasUniqueKeys-append k a [] h u = (refl, tt)
  HasUniqueKeys-append k a ((i, b) ∷ d) h u = elim (Bool-cases (text_eq i k)) [
    | inl same ↦ absurd (let f = sym (get_key-here i k b d same) ∙ h in cc)
    | inr apart ↦ (
      get_key-append i k a d (sym (get_key-there i k b d apart) ∙ h)
          ∙ rw (text_eq_swap i k apart) u.0,
      HasUniqueKeys-append k a d (sym (get_key-there i k b d apart) ∙ h) u.1,
    )
  ]

  pub keys-append :
      (k : Text) (a : A) (d : List (Text × A)) → keys (d ++ (k, a) ∷ []) ≡ keys d ++ k ∷ []
  unfolding keys
  keys-append k a [] = refl
  keys-append k a ((i, b) ∷ d) = ap (λ js. i ∷ js) (keys-append k a d)

  -- A key that is there keeps its place.
  pub keys-set_key :
      (k : Text) (a b : A) (d : List (Text × A))
      → get_key k d ≡ some b
      → keys (set_key k a d) ≡ keys d
  unfolding keys set_key get_key
  keys-set_key k a b [] h = absurd cc
  keys-set_key k a b ((i, c) ∷ d) h = elim (Bool-cases (text_eq i k)) [
    | inl same ↦ rw same (ap (λ j. j ∷ map (λ e. e.0) d) (sym (text_eq_sound i k same)))
    | inr apart ↦
        rw apart (ap (λ js. i ∷ js) (keys-set_key k a b d (sym (get_key-there i k c d apart) ∙ h)))
  ]

  pub HasUniqueKeys-set_key :
      (k : Text) (a b : A) (d : List (Text × A))
      → get_key k d ≡ some b
      → HasUniqueKeys d
      → HasUniqueKeys (set_key k a d)
  unfolding HasUniqueKeys set_key get_key
  HasUniqueKeys-set_key k a b [] h u = absurd cc
  HasUniqueKeys-set_key k a b ((i, c) ∷ d) h u = elim (Bool-cases (text_eq i k)) [
    | inl same ↦ rw same (sym (ap (λ j. get_key j d) (text_eq_sound i k same)) ∙ u.0, u.1)
    | inr apart ↦ rw apart (
      get_key-set_key k i a d ∙ rw (text_eq_swap i k apart) u.0,
      HasUniqueKeys-set_key k a b d (sym (get_key-there i k c d apart) ∙ h) u.1,
    )
  ]
