-- ===== src/Fallback/Choice.antt =====
-- Which candidate answers: the first that commits, or ends other than by a ProviderError, and the
-- last one if there is none.
use claude_chakra.Prelude.{
  ℕ, ◌≡◌, refl, ◌∙◌, Bool, true, false, ◌||◌, Option, none, some, List, [], ◌∷◌, ◌++◌, append-nil,
  append_assoc, any, if◌then◌else◌, inl, inr, Bool-cases, Text, arith,
}
use claude_chakra.Sse.Event.{Event}
use claude_chakra.Fallback.{
  commits, End, exhausted, provider_error, other_error, Attempt, Response, new_hold, receive,
  receive_all, error_chunks, finish, rest_of_chain, stream_with_fallback,
}

abbrev pub is_final : End → Bool
is_final (provider_error message) = false
is_final _ = true

-- The candidates after this one are not asked.
abbrev pub is_decisive : Attempt → Bool
is_decisive a = any commits a.chunks || is_final a.end

abbrev pub chosen : Attempt → List Attempt → Attempt
chosen a [] = a
chosen a (b ∷ rest) = let later = chosen b rest in if is_decisive a then a else later

-- What a receive loop has yielded and holds, when it began with `held`.
receive_all-committed :
    (chunks held : List Text)
    → receive_all chunks (record { buffered = held; committed = true })
      ≡ (chunks, record { buffered = held; committed = true })
unfolding receive_all receive
receive_all-committed [] held = refl
receive_all-committed (x ∷ chunks) held = rw (receive_all-committed chunks held) refl

receive_all-first :
    (chunks held : List Text)
    → any commits chunks ≡ true
    → receive_all chunks (record { buffered = held; committed = false })
      ≡ (held ++ chunks, record { buffered = []; committed = true })
unfolding receive_all receive any
receive_all-first [] held h = cc
receive_all-first (x ∷ chunks) held h = elim (Bool-cases (commits x)) [
  | inl here ↦
      rw here (rw (receive_all-committed chunks []) (rw (append_assoc held (x ∷ []) chunks) refl))
  | inr miss ↦ rw miss (
      rw (receive_all-first chunks (held ++ x ∷ []) (ground arith))
        (rw (append_assoc held (x ∷ []) chunks) refl))
]

receive_all-none :
    (chunks held : List Text)
    → any commits chunks ≡ false
    → receive_all chunks (record { buffered = held; committed = false })
      ≡ ([], record { buffered = held ++ chunks; committed = false })
unfolding receive_all receive any
receive_all-none [] held h = rw append-nil refl
receive_all-none (x ∷ chunks) held h = elim (Bool-cases (commits x)) [
  | inl here ↦ absurd (ground arith)
  | inr miss ↦ rw miss (
      rw (receive_all-none chunks (held ++ x ∷ []) (ground arith))
        (rw (append_assoc held (x ∷ []) chunks) refl))
]

module _ (write : Event → Text) (mid : Text) (tokens : ℕ) where
  abbrev pub shown_end : End → Text → List Text → Bool → Response
  shown_end exhausted model chunks committed = record { sent = chunks; raises = none }
  shown_end (other_error tag) model chunks committed = record {
    sent = if committed then chunks else [];
    raises = some tag;
  }
  shown_end (provider_error message) model chunks committed = record {
    sent =
        (if committed then chunks else []) ++ error_chunks write mid tokens model message committed;
    raises = none;
  }

  -- What the client has of the candidate that answers: its chunks, or, if it raised before any
  -- content, none of them; and after a ProviderError the events of the error.
  abbrev pub shown : Attempt → Response
  shown a = shown_end a.end a.model a.chunks (any commits a.chunks)

  -- A candidate that answers, whatever comes after it.
  finish-committed :
      (end : End) (model : Text) (chunks : List Text) (next : Option Response)
      → any commits chunks ≡ true
      → finish write mid tokens end model (receive_all chunks new_hold) next
        ≡ shown_end end model chunks true
  unfolding finish
  finish-committed exhausted model chunks next h = rw (receive_all-first chunks [] h) refl
  finish-committed (other_error tag) model chunks next h = rw (receive_all-first chunks [] h) refl
  finish-committed (provider_error m) model chunks none h = rw (receive_all-first chunks [] h) refl
  finish-committed (provider_error m) model chunks (some r) h =
      rw (receive_all-first chunks [] h) refl

  finish-final :
      (end : End) (model : Text) (chunks : List Text) (next : Option Response)
      → any commits chunks ≡ false
      → is_final end ≡ true
      → finish write mid tokens end model (receive_all chunks new_hold) next
        ≡ shown_end end model chunks false
  unfolding finish
  finish-final exhausted model chunks next h f = rw (receive_all-none chunks [] h) refl
  finish-final (other_error tag) model chunks next h f = rw (receive_all-none chunks [] h) refl
  finish-final (provider_error m) model chunks next h f = cc

  finish-last :
      (end : End) (model : Text) (chunks : List Text)
      → any commits chunks ≡ false
      → finish write mid tokens end model (receive_all chunks new_hold) none
        ≡ shown_end end model chunks false
  unfolding finish
  finish-last exhausted model chunks h = rw (receive_all-none chunks [] h) refl
  finish-last (other_error tag) model chunks h = rw (receive_all-none chunks [] h) refl
  finish-last (provider_error m) model chunks h = rw (receive_all-none chunks [] h) refl

  finish-skipped :
      (end : End) (model : Text) (chunks : List Text) (r : Response)
      → any commits chunks ≡ false
      → is_final end ≡ false
      → finish write mid tokens end model (receive_all chunks new_hold) (some r) ≡ r
  unfolding finish
  finish-skipped exhausted model chunks r h f = cc
  finish-skipped (other_error tag) model chunks r h f = cc
  finish-skipped (provider_error m) model chunks r h f = rw (receive_all-none chunks [] h) refl

  -- The client has exactly what the first candidate shows that commits, completes or fails other
  -- than by a ProviderError, and what the last one shows if there is none. Nothing of a candidate
  -- that is skipped reaches it.
  pub stream_with_fallback-chosen :
      (a : Attempt) (rest : List Attempt)
      → stream_with_fallback write mid tokens (a ∷ rest) ≡ shown (chosen a rest)
  unfolding stream_with_fallback rest_of_chain
  stream_with_fallback-chosen a [] = elim (Bool-cases (any commits a.chunks)) [
    | inl hit ↦ rw (finish-committed a.end a.model a.chunks none hit, hit) refl
    | inr miss ↦ rw (finish-last a.end a.model a.chunks miss, miss) refl
  ]
  stream_with_fallback-chosen a (b ∷ rest) = elim (Bool-cases (any commits a.chunks)) [
    | inl hit ↦
        let next = some (stream_with_fallback write mid tokens (b ∷ rest)) in
        rw (finish-committed a.end a.model a.chunks next hit) (rw hit (rw hit refl))
    | inr miss ↦ elim (Bool-cases (is_final a.end)) [
      | inl final ↦
          let next = some (stream_with_fallback write mid tokens (b ∷ rest)) in
          rw (finish-final a.end a.model a.chunks next miss final)
            (rw miss (rw final (rw miss refl)))
      | inr skipped ↦
          finish-skipped a.end a.model a.chunks (stream_with_fallback write mid tokens (b ∷ rest))
            miss skipped
          ∙ (stream_with_fallback-chosen b rest ∙ rw miss (rw skipped refl))
    ]
  ]
