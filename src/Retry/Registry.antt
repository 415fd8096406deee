-- ===== src/Retry/Registry.antt =====
-- The limiter that each provider scope shares.
use mathlib.Core.Option.{Option, some, some-injective}
use mathlib.Core.Path.{subst}
use claude_chakra.Prelude.{
  suc, zero, false, sym, ap, ◌∙◌, text_eq_sound, ◌≡◌, refl, true, none, ◌∷◌, arith, if◌then◌else◌,
  Text, text_eq, text_eq_refl, inl, inr, Bool-cases, is_empty,
}
use claude_chakra.Prelude.Int.{ℤ, pos, negsuc, eqℤ, eqℤ_iff}
use claude_chakra.SlidingWindow.{Limiter}
use claude_chakra.Retry.{
  GlobalRateLimiter, with_proactive, init, matches_config, or_default, Scopes, get_scope, reuse,
  store_scope, get_scoped_instance,
}

eqℤ_refl : (a : ℤ) → eqℤ a a ≡ true
eqℤ_refl a = (eqℤ_iff a a).1 refl

matches_self :
    (g : GlobalRateLimiter) → matches_config g g.rate_limit g.rate_window g.max_concurrency ≡ true
unfolding matches_config
matches_self g = rw (eqℤ_refl g.rate_limit, eqℤ_refl g.rate_window, eqℤ_refl g.max_concurrency) refl

with_proactive-matches :
    (limit window conc : ℤ) (o : Option Limiter) (g : GlobalRateLimiter)
    → with_proactive limit window conc o ≡ some g
    → matches_config g limit window conc ≡ true
unfolding with_proactive
with_proactive-matches limit window conc none g h = cc
with_proactive-matches limit window conc (some l) g h =
    subst (λ x. matches_config x limit window conc ≡ true) (some-injective _ _ h) (matches_self _)

-- A limiter is built with the configuration that was asked for.
init-matches :
    (limit window conc : ℤ) (g : GlobalRateLimiter)
    → init limit window conc ≡ some g
    → matches_config g limit window conc ≡ true
unfolding init
init-matches limit window (pos (suc c)) g h =
    with_proactive-matches limit window (pos (suc c)) _ g h
init-matches limit window (pos zero) g h = cc
init-matches limit window (negsuc n) g h = cc

-- What a registry gives for any scope once `g` is registered under `scope`.
abbrev Registers : Text → GlobalRateLimiter → Scopes → Scopes → Type 0
Registers scope g scopes scopes' =
    (other : Text)
    → get_scope scopes' other ≡ (if text_eq scope other then some g else get_scope scopes other)

module _ (scope : Text) (limit window conc : ℤ) (scopes scopes' : Scopes)
    (g : GlobalRateLimiter) where
  store-result :
      (o : Option GlobalRateLimiter)
      → store_scope scopes scope o ≡ some (g, scopes')
      → (o ≡ some g) × (scopes' ≡ (scope, g) ∷ scopes)
  unfolding store_scope
  store-result none h = cc
  store-result (some x) h = ground arith

  built :
      store_scope scopes scope (init limit window conc) ≡ some (g, scopes')
      → (matches_config g limit window conc ≡ true) × Registers scope g scopes scopes'
  unfolding get_scope
  built h =
      let (e, s) = store-result (init limit window conc) h in
      (init-matches limit window conc g e, λ other. rw s refl)

  kept : get_scope scopes scope ≡ some g → scopes' ≡ scopes → Registers scope g scopes scopes'
  kept h s other = elim (Bool-cases (text_eq scope other)) [
    | inl same ↦ rw (s, same) (ap (get_scope scopes) (sym (text_eq_sound scope other same)) ∙ h)
    | inr ne ↦ rw (s, ne) refl
  ]

  reuse-result :
      (o : Option GlobalRateLimiter)
      → get_scope scopes scope ≡ o
      → reuse scopes scope limit window conc o ≡ some (g, scopes')
      → (matches_config g limit window conc ≡ true) × Registers scope g scopes scopes'
  unfolding reuse
  reuse-result none e h = built h
  reuse-result (some x) e h = elim (Bool-cases (matches_config x limit window conc)) [
    | inl same ↦
        let p : (x ≡ g) × (scopes ≡ scopes') = ground arith in
        (cc (p.0, same), kept (e ∙ ap some p.0) (sym p.1))
    | inr ne ↦ built (ground arith)
  ]

  -- A registered limiter with the configuration that is asked for is handed out as it is.
  reuse_registered :
      get_scope scopes scope ≡ some g
      → matches_config g limit window conc ≡ true
      → reuse scopes scope limit window conc (get_scope scopes scope) ≡ some (g, scopes)
  unfolding reuse
  reuse_registered e same = rw e (rw same refl)

module _ (scope : Text) (limit window : Option ℤ) (conc : ℤ) where
  abbrev limit_asked : ℤ
  limit_asked = or_default (pos 40) limit

  abbrev window_asked : ℤ
  window_asked = or_default (pos 60) window

  -- The limiter that a scope is given has the configuration that was asked for, with 40 requests
  -- in 60 seconds as the defaults. It is registered under the scope, and the other scopes keep theirs.
  pub scoped-matches :
      (scopes scopes' : Scopes) (g : GlobalRateLimiter)
      → get_scoped_instance scope limit window conc scopes ≡ some (g, scopes')
      → (matches_config g (or_default (pos 40) limit) (or_default (pos 60) window) conc ≡ true)
        × ((other : Text)
            → get_scope scopes' other
              ≡ (if text_eq scope other then some g else get_scope scopes other))
  unfolding get_scoped_instance
  scoped-matches scopes scopes' g h =
      reuse-result scope limit_asked window_asked conc scopes scopes' g (get_scope scopes scope)
        refl (ground arith)

  -- Asked again, a scope with an unchanged configuration has its limiter back, history and block
  -- included, and nothing is registered.
  pub scoped-again :
      (scopes scopes' : Scopes) (g : GlobalRateLimiter)
      → get_scoped_instance scope limit window conc scopes ≡ some (g, scopes')
      → get_scoped_instance scope limit window conc scopes' ≡ some (g, scopes')
  unfolding get_scoped_instance
  scoped-again scopes scopes' g h =
      let (same, at) = scoped-matches scopes scopes' g h in
      let here : get_scope scopes' scope ≡ some g = at scope ∙ rw text_eq_refl refl in
      let filled : is_empty scope ≡ false = ground arith in
      rw filled (reuse_registered scope limit_asked window_asked conc scopes' scopes' g here same)
