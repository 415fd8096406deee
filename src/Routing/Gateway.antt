-- ===== src/Routing/Gateway.antt =====
-- The ids that the gateway advertises are read back.
use claude_chakra.Prelude.{
  ◌≡◌, refl, inl, inr, false, none, some, [], ◌∷◌, ◌++◌, ◌==◌, Text, text_eq, is_empty, arith,
  Bool-cases,
}
use claude_chakra.Routing.{
  partition, gateway_model_id, no_thinking_gateway_model_id, decode_ref, decode_parts,
  decode_gateway_model_id,
}

partition-append : (p m : Text) → partition p ≡ none → partition (p ++ 47 ∷ m) ≡ some (p, m)
unfolding partition
partition-append [] m h = refl
partition-append (c ∷ p) m h = elim (Bool-cases (c == 47)) [
  | inl slash ↦ absurd (ground arith)
  | inr plain ↦ let ih = partition-append p m (ground arith) in rw plain (rw ih refl)
]

-- A reference to a provider whose id has no slash and to a model with a name is read back from the id
-- that the gateway advertises for it, with thinking switched off exactly in the id that says so.
pub decode-gateway_model_id :
    (p m : Text)
    → partition p ≡ none
    → is_empty m ≡ false
    → (decode_gateway_model_id (gateway_model_id (p ++ 47 ∷ m))
        ≡ some (record { provider_id = p; provider_model = m; force_thinking_enabled = none }))
      × (decode_gateway_model_id (no_thinking_gateway_model_id (p ++ 47 ∷ m))
          ≡ some
              (record { provider_id = p; provider_model = m; force_thinking_enabled = some false }))
unfolding decode_gateway_model_id decode_parts decode_ref text_eq partition
decode-gateway_model_id p m plain named = (
  rw (partition-append p m plain) (rw named refl),
  rw (partition-append p m plain) (rw named refl),
)
