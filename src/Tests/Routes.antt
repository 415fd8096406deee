-- ===== src/Tests/Routes.antt =====
-- A settings object with a fallback to the primary model and one to another.
use mathlib.Core.Option
use claude_chakra.Prelude.{
  ◌≡◌, ◌∷◌, refl, true, false, none, some, [], List, Text, codes, text_eq, is_empty, any,
}
use claude_chakra.Routing.{
  Settings, ResolvedModel, partition, decode_gateway_model_id, gateway_model_id,
  no_thinking_gateway_model_id, resolve, resolve_fallback_chain, target,
}
use claude_chakra.Routing.Gateway.{decode-gateway_model_id}
use claude_chakra.Routing.Chain.{AreNew, resolve_fallback_chain-AreNew}

abbrev settings : Settings
settings = record {
  model = codes "groq/llama";
  model_opus = none;
  model_haiku = none;
  model_sonnet = none;
  enable_model_thinking = true;
  enable_opus_thinking = none;
  enable_haiku_thinking = none;
  enable_sonnet_thinking = none;
  model_fallbacks = codes "groq/llama" ∷ codes "nim/qwen" ∷ [];
}

abbrev same_case : Text → Text
same_case name = name

abbrev entry : Text → Text → Text → ResolvedModel
entry p m ref = record {
  original_model = codes "claude";
  provider_id = p;
  provider_model = m;
  provider_model_ref = ref;
  thinking_enabled = true;
}

abbrev expected : List ResolvedModel
expected =
    entry (codes "groq") (codes "llama") (codes "groq/llama")
    ∷ entry (codes "nim") (codes "qwen") (codes "nim/qwen")
    ∷ []

decode-gateway_model_id_example :
    (decode_gateway_model_id (gateway_model_id (codes "nim/qwen"))
      ≡ some (record {
        provider_id = codes "nim";
        provider_model = codes "qwen";
        force_thinking_enabled = none;
      }))
    × (decode_gateway_model_id (no_thinking_gateway_model_id (codes "nim/qwen"))
        ≡ some (record {
          provider_id = codes "nim";
          provider_model = codes "qwen";
          force_thinking_enabled = some false;
        }))
unfolding partition is_empty
decode-gateway_model_id_example = decode-gateway_model_id (codes "nim") (codes "qwen") refl refl

resolve_fallback_chain-AreNew_example :
    (primary : ResolvedModel) × (rest : List ResolvedModel) × (expected ≡ primary ∷ rest)
    × (resolve same_case (codes "groq" ∷ codes "nim" ∷ []) settings (codes "claude") ≡ some primary)
    × AreNew (target primary ∷ []) rest
unfolding resolve_fallback_chain Option.bind any text_eq
resolve_fallback_chain-AreNew_example =
    resolve_fallback_chain-AreNew same_case (codes "groq" ∷ codes "nim" ∷ []) settings
      (codes "claude") expected refl
