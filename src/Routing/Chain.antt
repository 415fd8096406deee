-- ===== src/Routing/Chain.antt =====
-- The chain of candidates has each target once, the primary one first.
use mathlib.Core.Option
use mathlib.Core.Option.{some-injective}
use mathlib.Core.Path.{subst}
use claude_chakra.Prelude.{
  ◌≡◌, refl, sym, ◌∙◌, inl, inr, true, false, none, some, List, [], ◌∷◌, Text, arith, Bool-cases,
  Option-cases,
}
use claude_chakra.Routing.{
  Settings, ResolvedModel, is_listed, target, fallback_entry, parse_model_ref, fallback_model_refs,
  resolve, extend, resolve_fallback_chain,
}

-- No target is among those before it.
pub AreNew : List (Text × Text) → List ResolvedModel → Type 0
AreNew seen [] = Unit
AreNew seen (r ∷ rs) = (is_listed (target r) seen ≡ false) × AreNew (target r ∷ seen) rs

module _ (lower : Text → Text) (supported : List Text) (s : Settings) (name : Text) where
  module _ (ref : Text) (refs : List Text) (seen : List (Text × Text)) where
    extend_bad : parse_model_ref ref ≡ none → extend lower supported s name (ref ∷ refs) seen ≡ none
    unfolding extend Option.bind
    extend_bad e = rw e refl

    extend_old :
        (t : Text × Text)
        → parse_model_ref ref ≡ some t
        → is_listed t seen ≡ true
        → extend lower supported s name (ref ∷ refs) seen ≡ extend lower supported s name refs seen
    unfolding extend Option.bind
    extend_old t e old = rw e (rw old refl)

    extend_new :
        (t : Text × Text)
        → parse_model_ref ref ≡ some t
        → is_listed t seen ≡ false
        → extend lower supported s name (ref ∷ refs) seen
          ≡ Option.map
              (λ rest. fallback_entry lower supported s name ref t ∷ rest)
              (extend lower supported s name refs (t ∷ seen))
    unfolding extend Option.bind
    extend_new t e new = rw e (rw new refl)

  extend-AreNew :
      (refs : List Text) (seen : List (Text × Text)) (rs : List ResolvedModel)
      → extend lower supported s name refs seen ≡ some rs
      → AreNew seen rs
  unfolding extend AreNew
  extend-AreNew [] seen rs h = subst (AreNew seen) (some-injective _ _ h) tt
  extend-AreNew (ref ∷ refs) seen rs h = elim (Option-cases (parse_model_ref ref)) [
    | inl bad ↦ absurd (let e = sym (extend_bad ref refs seen bad) ∙ h in cc)
    | inr (t, e) ↦ elim (Bool-cases (is_listed t seen)) [
      | inl old ↦ extend-AreNew refs seen rs (sym (extend_old ref refs seen t e old) ∙ h)
      | inr new ↦
          let all = extend lower supported s name (ref ∷ refs) seen in
          let step = extend_new ref refs seen t e new in
          elim (Option-cases (extend lower supported s name refs (t ∷ seen))) [
            | inl bad ↦ absurd (
                let none_there : all ≡ none = step ∙ rw bad refl in
                let f = sym none_there ∙ h in cc)
            | inr (rest, e') ↦
                let entry = fallback_entry lower supported s name ref t in
                let found : all ≡ some (entry ∷ rest) = step ∙ rw e' refl in
                let both = sym found ∙ h in
                subst (AreNew seen) (some-injective _ _ both)
                  (new, extend-AreNew refs (t ∷ seen) rest e')
          ]
    ]
  ]

  -- A chain begins with the primary model, and no candidate has the provider and the model of one
  -- before it.
  pub resolve_fallback_chain-AreNew :
      (chain : List ResolvedModel)
      → resolve_fallback_chain lower supported s name ≡ some chain
      → (primary : ResolvedModel) × (rest : List ResolvedModel) × (chain ≡ primary ∷ rest)
        × (resolve lower supported s name ≡ some primary)
        × AreNew (target primary ∷ []) rest
  unfolding resolve_fallback_chain Option.bind
  resolve_fallback_chain-AreNew chain h = elim (Option-cases (resolve lower supported s name)) [
    | inl bad ↦ absurd (let e = h in ground arith)
    | inr (primary, e) ↦
        elim (Option-cases
          (extend lower supported s name (fallback_model_refs s) (target primary ∷ []))) [
            | inl bad ↦ absurd (
                let refused : resolve_fallback_chain lower supported s name ≡ none =
                  rw e (rw bad refl) in
                let f = sym refused ∙ h in cc)
            | inr (rest, e') ↦
                let both : resolve_fallback_chain lower supported s name ≡ some (primary ∷ rest) =
                  rw e (rw e' refl) in
                (
                  primary,
                  rest,
                  some-injective _ _ (sym h ∙ both),
                  e,
                  extend-AreNew (fallback_model_refs s) (target primary ∷ []) rest e',
                )
          ]
  ]
