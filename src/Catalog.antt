-- ===== src/Catalog.antt =====
-- shared/catalog.ts: the model and provider entries. Their data, proxy/catalog.json, is a parameter
-- of what uses it; a provider's path patterns are kept as their source text.
use kamu_llm_gateway.Prelude.{Option, List, Text}
use kamu_llm_gateway.Prelude.Maps
use kamu_llm_gateway.Pricing.{Rates}

pub data AuthStyle : Type 0 where
  x_api_key bearer both : AuthStyle

pub record ProviderEntry : Type 0 where
  pub base_url : Text
  pub auth_style : AuthStyle
  pub api_key_env_var : Text
  pub allowed_paths : List Text
  pub strip_path_prefix : Option Text
  pub upstream_headers : List (Text × Text)

pub record ModelEntry : Type 0 where
  pub provider_slug : Text
  pub rates : Rates
  pub open rates use *
  pub upstream_model_slug : Option Text
  pub request_overrides : Option Text

abbrev pub Providers : Type 0
Providers = List (Text × ProviderEntry)

abbrev pub Models : Type 0
Models = List (Text × ModelEntry)

pub get_provider : Providers → Text → Option ProviderEntry
get_provider providers slug = Maps.get slug providers

unfoldable pub get_model : Models → Text → Option ModelEntry
get_model models slug = Maps.get slug models
