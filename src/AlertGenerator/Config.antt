-- ===== src/AlertGenerator/Config.antt =====
-- alert_generator/config/config.go: validateConfig. strconv.Atoi is a parameter. YAML decoding and
-- the reading of the file are not modelled.
pub mod Usable
use compliance.Base.{
  ℕ, ℤ, pos, negsuc, String, Bool, true, false, not, ◌&&◌, ltb, str_eq, if◌then◌else◌, Option, none,
  some, Result, ok, err,
}

-- AuthConfig, without SigV4.
pub record AuthConfig : Type 0 where
  pub basic_auth_user : String
  pub basic_auth_pass : String

pub record Auth : Type 0 where
  pub remote_write : AuthConfig
  pub rules_and_alerts_api : AuthConfig
  pub query : AuthConfig

-- The settings that validateConfig reads or sets, and the list of test cases.
pub record Config : Type 0 where
  pub remote_write_url : String
  pub query_base_url : String
  pub rules_and_alerts_api_base_url : String
  pub alert_reception_server_port : String
  pub auth : Auth

pub data ConfigError : Type 0 where
  missing_remote_write_pass missing_rules_and_alerts_api_pass missing_query_pass : ConfigError
  no_remote_write_url no_query_base_url no_rules_and_alerts_api_base_url : ConfigError
  port_not_integer port_too_large : ConfigError

-- A user is set without a password.
abbrev lacks_pass : AuthConfig → Bool
lacks_pass a = not (str_eq a.basic_auth_user "") && str_eq a.basic_auth_pass ""

-- `p > 65535`.
abbrev too_large : ℤ → Bool
too_large (pos p) = ltb 65535 p
too_large (negsuc n) = false

-- The default port.
abbrev with_port : Config → Config
with_port cfg =
    if str_eq cfg.alert_reception_server_port ""
    then record cfg { alert_reception_server_port = "8080" }
    else cfg

abbrev check_port : Config → Option ℤ → Result ConfigError Config
check_port cfg none = err port_not_integer
check_port cfg (some p) = if too_large p then err port_too_large else ok cfg

-- validateConfig.
unfoldable pub validate_config : (String → Option ℤ) → Config → Result ConfigError Config
validate_config atoi cfg =
    if lacks_pass cfg.auth.remote_write
    then err missing_remote_write_pass
    else if lacks_pass cfg.auth.rules_and_alerts_api
    then err missing_rules_and_alerts_api_pass
    else if lacks_pass cfg.auth.query
    then err missing_query_pass
    else if str_eq cfg.remote_write_url ""
    then err no_remote_write_url
    else if str_eq cfg.query_base_url ""
    then err no_query_base_url
    else if str_eq cfg.rules_and_alerts_api_base_url ""
    then err no_rules_and_alerts_api_base_url
    else check_port (with_port cfg) (atoi (with_port cfg).alert_reception_server_port)
