-- ===== src/Credentials/Usable.antt =====
-- Which Secrets the operator accepts as credentials.
use mathlib.Core.Path.{subst}
use miniziti_operator.Prelude.{
  String, ◌≡◌, refl, sym, ◌∙◌, false, ◌||◌, Option, none, some, ◌==◌, arith, Bool-cases,
  Option-cases, inl, inr, ◌⊎◌,
}
use miniziti_operator.Errors.{Err, ok, err, Result-cases}
use miniziti_operator.Credentials.{
  ManagementConfig, ManagementSecret, Url, Parsers, validate, validate_parsed, config_of, load,
  load_management_config, root_cas_from_config,
}

-- Complete credentials: an absolute URL, a user, a password, and a bundle from which the client of the
-- management API can make its certificate pool.
abbrev pub Usable : Parsers → ManagementConfig → Type 0
Usable p c =
    (url : Url) × (pool : Option String) × (p.parse_url c.controller_url ≡ ok url)
    × ((c.controller_url == "") ≡ false)
    × ((url.scheme == "" || url.host == "") ≡ false)
    × ((c.username == "") ≡ false)
    × ((c.password == "") ≡ false)
    × (root_cas_from_config p c ≡ ok pool)

module _ (p : Parsers) (c : ManagementConfig) where
  validate_of_Usable : Usable p c → validate p c ≡ none
  unfolding validate validate_parsed root_cas_from_config
  validate_of_Usable (url, pool, parsed, present, absolute, user, password, pooled) =
      elim (Bool-cases (c.ca_bundle_pem == "")) [
        | inl blank ↦ rw (present, parsed, validate_parsed, absolute, user, password, blank) refl
        | inr full ↦ elim (Bool-cases (p.appends_certs c.ca_bundle_pem)) [
          | inl good ↦
              rw (present, parsed, validate_parsed, absolute, user, password, full, good) refl
          | inr bad ↦ absurd (ground (full, bad, pooled, arith))
        ]
      ]

  Usable-of_parsed :
      (url : Url)
      → p.parse_url c.controller_url ≡ ok url
      → (c.controller_url == "") ≡ false
      → validate_parsed p c (ok url) ≡ none
      → Usable p c
  unfolding validate_parsed root_cas_from_config
  Usable-of_parsed url parsed present valid =
      elim (Bool-cases (url.scheme == "" || url.host == "")) [
        | inl e ↦ absurd (ground (e, valid, arith))
        | inr absolute ↦ elim (Bool-cases (c.username == "")) [
          | inl e ↦ absurd (ground (absolute, e, valid, arith))
          | inr user ↦ elim (Bool-cases (c.password == "")) [
            | inl e ↦ absurd (ground (absolute, user, e, valid, arith))
            | inr password ↦ elim (Bool-cases (c.ca_bundle_pem == "")) [
              | inl blank ↦ (url, none, parsed, present, absolute, user, password, rw blank refl)
              | inr full ↦ elim (Bool-cases (p.appends_certs c.ca_bundle_pem)) [
                | inl good ↦ (
                  url,
                  some c.ca_bundle_pem,
                  parsed,
                  present,
                  absolute,
                  user,
                  password,
                  rw (full, good) refl,
                )
                | inr bad ↦ absurd (ground (absolute, user, password, full, bad, valid, arith))
              ]
            ]
          ]
        ]
      ]

  Usable-of_validate : validate p c ≡ none → Usable p c
  unfolding validate
  Usable-of_validate valid = elim (Bool-cases (c.controller_url == "")) [
    | inl e ↦ absurd (ground (e, valid, arith))
    | inr present ↦
        let opened : validate p c ≡ validate_parsed p c (p.parse_url c.controller_url) =
          rw (validate, present) refl in
        let after : validate_parsed p c (p.parse_url c.controller_url) ≡ none =
          sym opened ∙ valid in
        elim (Result-cases (p.parse_url c.controller_url)) [
          | inr (x, e) ↦
              let bad : validate_parsed p c (err x) ≡ none =
                subst (λ r. validate_parsed p c r ≡ none) e after in
              absurd (cc bad)
          | inl (url, parsed) ↦
              Usable-of_parsed url parsed present
                (subst (λ r. validate_parsed p c r ≡ none) parsed after)
        ]
  ]

-- Reading the credentials either gives the fields of the Secret, with the blanks around the URL, the
-- user and the password removed, and then they are usable; or it ends with an error, and then they are
-- not: what is accepted never fails later for its form, and nothing usable is refused.
pub load-decides :
    (p : Parsers) (secret : ManagementSecret)
    → ((load p (ok secret) ≡ ok (config_of p secret)) × Usable p (config_of p secret))
      ⊎ ((e : Err) × (load p (ok secret) ≡ err e) × ¬ Usable p (config_of p secret))
unfolding load load_management_config
load-decides p secret =
    let cfg = config_of p secret in
    elim (Option-cases (validate p cfg)) [
      | inl valid ↦ rw valid (inl (refl, Usable-of_validate p cfg valid))
      | inr (x, invalid) ↦ rw invalid (inr (_, refl, λ u. absurd (cc (validate_of_Usable p cfg u))))
    ]
