-- ===== src/Config/Tests.antt =====
-- Concrete runs of the model of backend/app/config.py.
use ap2web.Config.Env.{Environ, ℤ}
use ap2web.Config.Settings.{Settings, is_production, settings_of}
use ap2web.Config.Validation.{load, validate}
use ap2web.Config.Safety.{Safe, is_half_given, validate-Safe}
use ap2web.Config.Ranges.{InRange, load-InRange}
use ap2web.Prelude.{
  List, Option, Text, [], codes, false, if◌then◌else◌, none, ok, refl, some, text_eq, true, ◌↔◌,
  ◌∷◌, ◌≡◌,
}

abbrev no_int : Text → Option ℤ
no_int t = none

abbrev no_file : Text → Option Text
no_file t = none

-- The environment that holds the given bindings.
abbrev bindings : List (Text × Text) → Environ
bindings [] name = none
bindings ((n, v) ∷ bs) name = if text_eq n name then some v else bindings bs name

abbrev live : Environ
live = bindings (
    (codes "AP2WEB_SECRET", codes "0123456789abcdef0123456789abcdef")
    ∷ (codes "DATABASE_URL", codes "postgresql://db")
    ∷ (codes "AP2WEB_ORIGINS", codes "https://a.example, https://b.example")
    ∷ (codes "AP2WEB_REDIS_URL", codes "redis://cache")
    ∷ [])

abbrev live_settings : Settings
live_settings =
    settings_of no_int live (codes "0123456789abcdef0123456789abcdef") (codes "postgresql://db")

live_loads : load no_int no_file live ≡ ok live_settings
unfolding load
live_loads = refl

load-InRange_example :
    InRange live_settings × (is_production live_settings.env ≡ true → Safe live_settings)
load-InRange_example = load-InRange no_int no_file live live_loads

live_production : is_production live_settings.env ≡ true
unfolding settings_of text_eq
live_production = refl

validate-Safe_example :
    (validate live_settings ≡ none) ↔ ((is_half_given live_settings ≡ false) × Safe live_settings)
validate-Safe_example = validate-Safe live_settings live_production
