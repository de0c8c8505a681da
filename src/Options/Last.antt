-- ===== src/Options/Last.antt =====
-- The options as what was said last of each.
use grav.Common.{
  ◌≡◌, refl, ap, ◌∙◌, arith, String, List, [], ◌∷◌, Option, none, some, ite, bytes_discrete, map,
}
use grav.Message.{Bytes}
use grav.Options.{
  default_port, default_uri, Plugin, Options, OptionsModifier, default_options, use_logger,
  use_mesh_transport, use_bridge_transport, use_discovery, use_endpoint, use_belongs_to,
  use_interests, apply_modifiers, new_options_with_modifiers,
}

-- The modifiers of the package.
pub data Setting : Type 0 where
  set_logger : Plugin → Setting
  set_mesh set_bridge set_discovery : Option Plugin → Setting
  set_endpoint : Bytes → Bytes → Setting
  set_belongs_to : String → Setting
  set_interests : List String → Setting

abbrev pub modifier : Setting → OptionsModifier
modifier (set_logger l) = use_logger l
modifier (set_mesh m) = use_mesh_transport m
modifier (set_bridge b) = use_bridge_transport b
modifier (set_discovery d) = use_discovery d
modifier (set_endpoint p u) = use_endpoint p u
modifier (set_belongs_to b) = use_belongs_to b
modifier (set_interests is) = use_interests is

-- The last value that the settings give, or the default.
abbrev pub last_or {ℓ} : {A : Type ℓ} → (Setting → Option A) → A → List Setting → A
last_or f d [] = d
last_or f d (s ∷ ss) = last_or f (elim (f s) [ none ↦ d | some a ↦ a ]) ss

abbrev pub non_empty : Bytes → Option Bytes
non_empty s = ite (bytes_discrete s []) none (some s)

abbrev pub logger_of : Setting → Option Plugin
logger_of (set_logger l) = some l
logger_of _ = none

abbrev pub mesh_of : Setting → Option (Option Plugin)
mesh_of (set_mesh m) = some m
mesh_of _ = none

abbrev pub bridge_of : Setting → Option (Option Plugin)
bridge_of (set_bridge b) = some b
bridge_of _ = none

abbrev pub discovery_of : Setting → Option (Option Plugin)
discovery_of (set_discovery d) = some d
discovery_of _ = none

abbrev pub port_of : Setting → Option Bytes
port_of (set_endpoint p u) = non_empty p
port_of _ = none

abbrev pub uri_of : Setting → Option Bytes
uri_of (set_endpoint p u) = non_empty u
uri_of _ = none

abbrev pub belongs_to_of : Setting → Option String
belongs_to_of (set_belongs_to b) = some b
belongs_to_of _ = none

abbrev pub interests_of : Setting → Option (List String)
interests_of (set_interests is) = some is
interests_of _ = none

-- The options that the settings make of `o`.
abbrev pub chosen : List Setting → Options → Options
chosen ss o = record {
  logger = last_or logger_of o.logger ss;
  mesh_transport = last_or mesh_of o.mesh_transport ss;
  bridge_transport = last_or bridge_of o.bridge_transport ss;
  discovery = last_or discovery_of o.discovery ss;
  port = last_or port_of o.port ss;
  uri = last_or uri_of o.uri ss;
  belongs_to = last_or belongs_to_of o.belongs_to ss;
  interests = last_or interests_of o.interests ss;
}

step : (s : Setting) (o : Options) → modifier s o ≡ chosen (s ∷ []) o
unfolding use_logger use_mesh_transport use_bridge_transport use_discovery use_endpoint
    use_belongs_to use_interests
step (set_logger l) o = refl
step (set_mesh m) o = refl
step (set_bridge b) o = refl
step (set_discovery d) o = refl
step (set_endpoint p u) o = ground arith
step (set_belongs_to b) o = refl
step (set_interests is) o = refl

apply_modifiers_lem :
    (ss : List Setting) (o : Options) → apply_modifiers (map modifier ss) o ≡ chosen ss o
unfolding apply_modifiers
apply_modifiers_lem [] o = refl
apply_modifiers_lem (s ∷ ss) o =
    ap (apply_modifiers (map modifier ss)) (step s o) ∙ apply_modifiers_lem ss (chosen (s ∷ []) o)

-- After any sequence of the modifiers of the package, each option has the value that was given last
-- for it, where an empty port or URI counts as none, or its default.
pub new_options_with_modifiers_lem :
    (logger : Plugin) (ss : List Setting)
    → new_options_with_modifiers logger (map modifier ss) ≡ record {
      logger = last_or logger_of logger ss;
      mesh_transport = last_or mesh_of none ss;
      bridge_transport = last_or bridge_of none ss;
      discovery = last_or discovery_of none ss;
      port = last_or port_of default_port ss;
      uri = last_or uri_of default_uri ss;
      belongs_to = last_or belongs_to_of "*" ss;
      interests = last_or interests_of [] ss;
    }
unfolding new_options_with_modifiers default_options
new_options_with_modifiers_lem logger ss = apply_modifiers_lem ss (default_options logger)
