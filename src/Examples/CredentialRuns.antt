-- ===== src/Examples/CredentialRuns.antt =====
-- Credentials that are read.
use miniziti_operator.Prelude.{◌≡◌, ◌⊎◌, true, [], ◌∷◌}
use miniziti_operator.Errors.{Err, ok, err}
use miniziti_operator.Credentials.{Parsers, ManagementSecret, config_of, load}
use miniziti_operator.Credentials.Usable.{Usable, load-decides}

abbrev parsers : Parsers
parsers = record {
  parse_url = λ s. ok (record { scheme = "https"; host = s });
  appends_certs = λ s. true;
}

abbrev secret : ManagementSecret
secret = record {
  namespace = "ns";
  name = "ziti";
  entries =
      ("controllerUrl", " ctrl ")
      ∷ ("username", "admin")
      ∷ ("password", "p")
      ∷ ("caBundle", "pem")
      ∷ [];
}

load-decides_example :
    ((load parsers (ok secret) ≡ ok (config_of parsers secret))
      × Usable parsers (config_of parsers secret))
    ⊎ ((e : Err) × (load parsers (ok secret) ≡ err e) × ¬ Usable parsers (config_of parsers secret))
load-decides_example = load-decides parsers secret
