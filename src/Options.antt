-- ===== src/Options.antt =====
-- grav/options.go: the options of an instance. A plugin or a logger is other code, and known by a number.
pub mod Last
use grav.Common.{ℕ, String, List, [], ◌∷◌, Option, none, ite, bytes_discrete}
use grav.Message.{Bytes}

abbrev pub Plugin : Type 0
Plugin = ℕ

pub record Options : Type 0 where
  pub logger : Plugin
  pub mesh_transport : Option Plugin
  pub bridge_transport : Option Plugin
  pub discovery : Option Plugin
  pub port : Bytes
  pub uri : Bytes
  pub belongs_to : String
  pub interests : List String

abbrev pub OptionsModifier : Type 0
OptionsModifier = Options → Options

-- "8080" and "/meta/message"
abbrev pub default_port : Bytes
default_port = b'8' ∷ b'0' ∷ b'8' ∷ b'0' ∷ []

abbrev pub default_uri : Bytes
default_uri =
    b'/' ∷ b'm' ∷ b'e' ∷ b't' ∷ b'a' ∷ b'/' ∷ b'm' ∷ b'e' ∷ b's' ∷ b's' ∷ b'a' ∷ b'g' ∷ b'e' ∷ []

-- `vlog.Default()` is the argument.
unfoldable pub default_options : Plugin → Options
default_options logger = record {
  logger = logger;
  mesh_transport = none;
  bridge_transport = none;
  discovery = none;
  port = default_port;
  uri = default_uri;
  belongs_to = "*";
  interests = [];
}

unfoldable pub use_logger : Plugin → OptionsModifier
use_logger logger o = record o { logger = logger }

unfoldable pub use_mesh_transport : Option Plugin → OptionsModifier
use_mesh_transport mesh o = record o { mesh_transport = mesh }

unfoldable pub use_bridge_transport : Option Plugin → OptionsModifier
use_bridge_transport bridge o = record o { bridge_transport = bridge }

unfoldable pub use_discovery : Option Plugin → OptionsModifier
use_discovery discovery o = record o { discovery = discovery }

-- An empty text keeps what was set.
unfoldable pub use_endpoint : Bytes → Bytes → OptionsModifier
use_endpoint port uri o = record o {
  port = ite (bytes_discrete port []) o.port port;
  uri = ite (bytes_discrete uri []) o.uri uri;
}

unfoldable pub use_belongs_to : String → OptionsModifier
use_belongs_to belongs_to o = record o { belongs_to = belongs_to }

unfoldable pub use_interests : List String → OptionsModifier
use_interests interests o = record o { interests = interests }

-- The loop over the modifiers, in their order.
unfoldable pub apply_modifiers : List OptionsModifier → OptionsModifier
apply_modifiers [] o = o
apply_modifiers (m ∷ ms) o = apply_modifiers ms (m o)

unfoldable pub new_options_with_modifiers : Plugin → List OptionsModifier → Options
unfolding default_options apply_modifiers
new_options_with_modifiers logger mods = apply_modifiers mods (default_options logger)
