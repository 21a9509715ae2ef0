-- ===== src/Credentials.antt =====
-- internal/credentials: config.go and runtime.go, the credentials of the management API; and what
-- client.go makes of their certificates.
pub mod Usable
use miniziti_operator.Prelude.{
  String, Bool, true, false, not, ◌||◌, Option, none, some, List, [], ◌∷◌, ◌==◌, if◌then◌else◌,
}
use miniziti_operator.Strings.{trim_space}
use miniziti_operator.Maps.{get_or, lookup}
use miniziti_operator.Errors.{Err, Result, ok, err, text, wrapped}

-- The bundle is its bytes.
pub record ManagementConfig : Type 0 where
  pub controller_url : String
  pub username : String
  pub password : String
  pub ca_bundle_pem : String

pub record SecretRef : Type 0 where
  pub namespace : String
  pub name : String

-- What is read of the Secret.
pub record ManagementSecret : Type 0 where
  pub namespace : String
  pub name : String
  pub entries : List (String × String)

-- What is used of a parsed URL.
pub record Url : Type 0 where
  pub scheme : String
  pub host : String

-- Library code: url.Parse, and whether AppendCertsFromPEM takes a certificate from the bytes.
pub record Parsers : Type 0 where
  pub parse_url : String → Result Url
  pub appends_certs : String → Bool

module _ (p : Parsers) where
  abbrev bundle_error : ManagementConfig → Option Err
  bundle_error c =
      if not (c.ca_bundle_pem == "")
      then if not (p.appends_certs c.ca_bundle_pem)
        then some (text "caBundle must contain valid PEM certificates")
        else none
      else none

  -- ManagementConfig.Validate from the parsed URL on
  unfoldable pub validate_parsed : ManagementConfig → Result Url → Option Err
  validate_parsed c (err e) = some (wrapped "parse controllerUrl" e)
  validate_parsed c (ok url) =
      if url.scheme == "" || url.host == ""
      then some (text "controllerUrl must be an absolute URL")
      else if c.username == ""
      then some (text "missing username")
      else if c.password == ""
      then some (text "missing password")
      else bundle_error c

  -- ManagementConfig.Validate
  unfoldable pub validate : ManagementConfig → Option Err
  unfolding validate_parsed
  validate c =
      if c.controller_url == ""
      then some (text "missing controllerUrl")
      else validate_parsed c (p.parse_url c.controller_url)

  -- The fields that LoadManagementConfig takes from the Secret.
  unfoldable pub config_of : ManagementSecret → ManagementConfig
  unfolding trim_space lookup
  config_of secret = record {
    controller_url = trim_space (get_or "" "controllerUrl" secret.entries);
    username = trim_space (get_or "" "username" secret.entries);
    password = trim_space (get_or "" "password" secret.entries);
    ca_bundle_pem = get_or "" "caBundle" secret.entries;
  }

  abbrev checked : ManagementConfig → Option Err → Result ManagementConfig
  checked cfg none = ok cfg
  checked cfg (some e) = err (wrapped "invalid management secret" e)

  -- LoadManagementConfig
  unfoldable pub load_management_config : Option ManagementSecret → Result ManagementConfig
  unfolding validate config_of
  load_management_config none = err (text "management secret is required")
  load_management_config (some secret) = checked (config_of secret) (validate (config_of secret))

  -- SecretConfigLoader.Load, with what the read of the Secret answered
  unfoldable pub load : Result ManagementSecret → Result ManagementConfig
  unfolding load_management_config
  load (err e) = err (wrapped "load management secret" e)
  load (ok secret) = load_management_config (some secret)

  -- rootCAsFromConfig: no pool for an empty bundle, or the pool of its certificates.
  unfoldable pub root_cas_from_config : ManagementConfig → Result (Option String)
  root_cas_from_config c =
      if c.ca_bundle_pem == ""
      then ok none
      else if not (p.appends_certs c.ca_bundle_pem)
      then err (text "invalid caBundle in management credentials")
      else ok (some c.ca_bundle_pem)

-- SecretRefFromEnv, with the environment
unfoldable pub secret_ref_from_env : (String → String) → Result SecretRef
unfolding trim_space
secret_ref_from_env getenv =
    let name = trim_space (getenv "MINIZITI_MANAGEMENT_SECRET_NAME") in
    let namespace = trim_space (getenv "MINIZITI_MANAGEMENT_SECRET_NAMESPACE") in
    if name == ""
    then err (text "MINIZITI_MANAGEMENT_SECRET_NAME must not be empty")
    else if namespace == ""
    then err (text "MINIZITI_MANAGEMENT_SECRET_NAMESPACE must not be empty")
    else ok (record { namespace = namespace; name = name })
