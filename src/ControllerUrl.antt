-- ===== src/ControllerUrl.antt =====
-- services/common/pkg/controllerurl: the base URL of the controller, with and without the prefix
-- that the frontend's ingress serves the API under.
pub mod Prefix
use ice_hive.Prelude.{
  ℕ, Bool, true, false, ◌&&◌, ◌||◌, [], ◌∷◌, ◌++◌, Option, none, some, ◌==◌, if◌then◌else◌,
}
use ice_hive.Text.{Bytes, codes, is_nil, trim_space, trim_right, has_suffix, to_lower, contains}

abbrev pub api_prefix : Bytes
api_prefix = codes "/api"

-- The cutset of strings.TrimRight(s, "/").
abbrev pub is_slash : ℕ → Bool
is_slash c = c == b'/'

unfoldable pub trim_base : Bytes → Bytes
trim_base base = trim_right is_slash (trim_space base)

unfoldable pub has_api_prefix : Bytes → Bool
has_api_prefix base = has_suffix (trim_base base) api_prefix

unfoldable pub with_api_prefix : Bytes → Bytes
with_api_prefix base =
    let b = trim_base base in if is_nil b || has_api_prefix b then b else b ++ api_prefix

-- What errors.As finds in an error when it is a Connect error.
pub record ConnectError : Type 0 where
  pub code_unknown : Bool
  pub message : Bytes

unfoldable pub is_connect_unknown_405 : Option ConnectError → Bool
is_connect_unknown_405 none = false
is_connect_unknown_405 (some e) = e.code_unknown && contains (to_lower e.message) (codes "405")

-- IsMethodNotAllowed, on an error that is there and its text
unfoldable pub is_method_not_allowed : Option ConnectError → Bytes → Bool
is_method_not_allowed e text =
    let msg = to_lower text in
    is_connect_unknown_405 e
    || contains msg (codes "405") && contains msg (codes "method not allowed")

pub data Source : Type 0 where
  flag_source env_source default_source : Source

pub record Resolved : Type 0 where
  pub url : Bytes
  pub source : Source

abbrev pub default_url : Bytes
default_url = codes "http://localhost:8080"

-- Resolve, with the value of ICEHIVE_CONTROLLER_URL
unfoldable pub resolve : Bytes → Bytes → Resolved
resolve flag_value env_value =
    let flag = trim_space flag_value in
    let env = trim_space env_value in
    if is_nil flag
    then if is_nil env
      then record { url = default_url; source = default_source }
      else record { url = env; source = env_source }
    else record { url = flag; source = flag_source }
