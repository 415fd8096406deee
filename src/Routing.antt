-- ===== src/Routing.antt =====
-- api/model_router.py and api/gateway_model_ids.py: which provider and model serve a model name, and
-- the settings that they read (config/settings.py).
--
-- `lower` is `str.lower`, and `supported` the provider ids of the catalogue; both are arguments. The
-- fallback references stand in the settings as the list that they are parsed to.
pub mod Gateway
pub mod Chain
use mathlib.Core.Option
use claude_chakra.Prelude.{
  ℕ, Bool, true, false, ◌&&◌, ◌||◌, Option, none, some, List, [], ◌∷◌, ◌++◌, ◌==◌, if◌then◌else◌,
  any, Text, codes, text_eq, is_empty, find,
}

-- `s.partition("/")`; `none` where there is no separator.
unfoldable pub partition : Text → Option (Text × Text)
partition [] = none
partition (c ∷ s) =
    let rest = Option.map (λ r. (c ∷ r.0, r.1)) (partition s) in
    if c == 47 then some ([], s) else rest

abbrev pub gateway_prefix : Text
gateway_prefix = codes "anthropic"

abbrev pub no_thinking_prefix : Text
no_thinking_prefix = codes "claude-3-freecc-no-thinking"

abbrev pub gateway_model_id : Text → Text
gateway_model_id ref = gateway_prefix ++ (47 ∷ ref)

abbrev pub no_thinking_gateway_model_id : Text → Text
no_thinking_gateway_model_id ref = no_thinking_prefix ++ (47 ∷ ref)

pub record DecodedGatewayModelId : Type 0 where
  pub provider_id : Text
  pub provider_model : Text
  pub force_thinking_enabled : Option Bool

decode_ref : Option Bool → Option (Text × Text) → Option DecodedGatewayModelId
decode_ref force none = none
decode_ref force (some (p, m)) =
    if is_empty m
    then none
    else some (record { provider_id = p; provider_model = m; force_thinking_enabled = force })

decode_parts : Option (Text × Text) → Option DecodedGatewayModelId
unfolding decode_ref
decode_parts none = none
decode_parts (some (prefix, remainder)) =
    if text_eq prefix gateway_prefix
    then decode_ref none (partition remainder)
    else if text_eq prefix no_thinking_prefix
    then decode_ref (some false) (partition remainder)
    else none

unfoldable pub decode_gateway_model_id : Text → Option DecodedGatewayModelId
unfolding decode_parts partition
decode_gateway_model_id name = decode_parts (partition name)

pub record Settings : Type 0 where
  pub model : Text
  pub model_opus : Option Text
  pub model_haiku : Option Text
  pub model_sonnet : Option Text
  pub enable_model_thinking : Bool
  pub enable_opus_thinking : Option Bool
  pub enable_haiku_thinking : Option Bool
  pub enable_sonnet_thinking : Option Bool
  pub model_fallbacks : List Text

-- `fragment in s`.
unfoldable pub is_in : Text → Text → Bool
is_in fragment s = elim (find fragment s) [ none ↦ false | some n ↦ true ]

-- A family's override counts where there is one and the name has the family's.
pick : {A : Type 0} → Option A → Bool → A → A
pick none here rest = rest
pick (some a) here rest = if here then a else rest

-- The override of the first family that counts, and else the default.
unfoldable pub by_family : {A : Type 0} → Text → Option A → Option A → Option A → A → A
unfolding is_in pick
by_family name opus haiku sonnet default =
    pick opus (is_in (codes "opus") name)
      (pick haiku (is_in (codes "haiku") name) (pick sonnet (is_in (codes "sonnet") name) default))

-- `s.split("/", 1)[1]`; `none` is the IndexError of a reference without a separator.
abbrev pub parse_model_ref : Text → Option (Text × Text)
parse_model_ref ref = partition ref

dedupe : List Text → List Text → List Text
dedupe seen [] = []
dedupe seen (ref ∷ refs) =
    let new = dedupe (ref ∷ seen) refs in
    let old = dedupe seen refs in if any (λ r. text_eq r ref) seen then old else ref ∷ new

unfoldable pub fallback_model_refs : Settings → List Text
unfolding dedupe
fallback_model_refs s = dedupe [] s.model_fallbacks

pub record ResolvedModel : Type 0 where
  pub original_model : Text
  pub provider_id : Text
  pub provider_model : Text
  pub provider_model_ref : Text
  pub thinking_enabled : Bool

abbrev pub same_target : Text × Text → Text × Text → Bool
same_target (p, m) (q, n) = text_eq p q && text_eq m n

abbrev pub is_listed : Text × Text → List (Text × Text) → Bool
is_listed target = any (λ t. same_target t target)

abbrev pub target : ResolvedModel → Text × Text
target r = (r.provider_id, r.provider_model)

module _ (lower : Text → Text) (supported : List Text) (s : Settings) where
  unfoldable pub resolve_model : Text → Text
  unfolding by_family
  resolve_model name = by_family (lower name) s.model_opus s.model_haiku s.model_sonnet s.model

  unfoldable pub resolve_thinking : Text → Bool
  unfolding by_family
  resolve_thinking name =
      by_family (lower name) s.enable_opus_thinking s.enable_haiku_thinking s.enable_sonnet_thinking
        s.enable_model_thinking

  abbrev pub is_supported : Text → Bool
  is_supported p = any (λ q. text_eq q p) supported

  plain_ref : Option (Text × Text) → Option DecodedGatewayModelId
  plain_ref none = none
  plain_ref (some (p, m)) =
      if is_supported p && (if is_empty m then false else true)
      then some (record { provider_id = p; provider_model = m; force_thinking_enabled = none })
      else none

  direct : Text → Option DecodedGatewayModelId → Option DecodedGatewayModelId
  unfolding plain_ref partition
  direct name none = plain_ref (partition name)
  direct name (some d) = if is_supported d.provider_id then some d else none

  unfoldable pub direct_provider_model : Text → Option DecodedGatewayModelId
  unfolding direct decode_gateway_model_id
  direct_provider_model name = direct name (decode_gateway_model_id name)

  -- The model that the settings choose.
  mapped : Text → Option (Text × Text) → Option ResolvedModel
  unfolding resolve_model resolve_thinking
  mapped name none = none
  mapped name (some (p, m)) = some (record {
    original_model = name;
    provider_id = p;
    provider_model = m;
    provider_model_ref = resolve_model name;
    thinking_enabled = resolve_thinking name;
  })

  resolved : Text → Option DecodedGatewayModelId → Option ResolvedModel
  unfolding mapped resolve_thinking resolve_model partition
  resolved name none = mapped name (parse_model_ref (resolve_model name))
  resolved name (some d) = some (record {
    original_model = name;
    provider_id = d.provider_id;
    provider_model = d.provider_model;
    provider_model_ref = name;
    thinking_enabled = elim d.force_thinking_enabled [
      | none ↦ resolve_thinking d.provider_model
      | some b ↦ b
    ];
  })

  unfoldable pub resolve : Text → Option ResolvedModel
  unfolding resolved direct_provider_model
  resolve name = resolved name (direct_provider_model name)

  -- The entry of a fallback reference.
  abbrev pub fallback_entry : Text → Text → Text × Text → ResolvedModel
  fallback_entry name ref (p, m) = record {
    original_model = name;
    provider_id = p;
    provider_model = m;
    provider_model_ref = ref;
    thinking_enabled = resolve_thinking m;
  }

  unfoldable pub extend : Text → List Text → List (Text × Text) → Option (List ResolvedModel)
  unfolding resolve_thinking partition
  extend name [] seen = some []
  extend name (ref ∷ refs) seen =
      let go = extend name refs in
      Option.bind (parse_model_ref ref) λ t.
        if is_listed t seen
        then go seen
        else Option.map (λ rest. fallback_entry name ref t ∷ rest) (go (t ∷ seen))

  -- `resolve_fallback_chain`.
  unfoldable pub resolve_fallback_chain : Text → Option (List ResolvedModel)
  unfolding resolve extend fallback_model_refs
  resolve_fallback_chain name = Option.bind (resolve name) λ primary.
      Option.map (λ rest. primary ∷ rest)
        (extend name (fallback_model_refs s) (target primary ∷ []))
