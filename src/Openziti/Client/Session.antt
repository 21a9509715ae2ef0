-- ===== src/Openziti/Client/Session.antt =====
-- The session of the management client: whose credentials it holds.
use mathlib.Core.Path.{subst}
use miniziti_operator.Prelude.{
  ◌≡◌, refl, Bool, true, false, not, ◌&&◌, Option, none, some, List, [], ◌∷◌, eq_iff, arith,
  Bool-cases, inl, inr, ◌⊎◌,
}
use miniziti_operator.Calls.{attempt}
use miniziti_operator.Errors.{Err, Result, ok, err, Result-cases}
use miniziti_operator.Credentials.{ManagementConfig}
use miniziti_operator.Openziti.Client.{
  Api, Call, load_config, authenticate, invalidate, Env, Exec, should_reauthenticate,
  same_management_config, cache_after, usable, authenticate_fresh, client_for, get_or_authenticate,
  try_again, unless_rejected, use_authenticated_client,
}

pub same_management_config→≡ :
    (left right : ManagementConfig) → same_management_config left right ≡ true → left ≡ right
unfolding same_management_config
same_management_config→≡ left right h =
    let url : left.controller_url ≡ right.controller_url =
      ground (arith, eq_iff left.controller_url right.controller_url) in
    let user : left.username ≡ right.username =
      ground (arith, eq_iff left.username right.username) in
    let password : left.password ≡ right.password =
      ground (arith, eq_iff left.password right.password) in
    let bundle : left.ca_bundle_pem ≡ right.ca_bundle_pem =
      ground (arith, eq_iff left.ca_bundle_pem right.ca_bundle_pem) in
    λ i. record {
      controller_url = url i;
      username = user i;
      password = password i;
      ca_bundle_pem = bundle i;
    }

-- A client that may be used without a new authentication is the cached one, for the same configuration.
pub usable-cached :
    (force : Bool) (cfg : ManagementConfig) (t : List Call) (api : Api)
    → usable force cfg (cache_after t) ≡ some api
    → ((cache_after t).cached_client ≡ some api) × ((cache_after t).cached_config ≡ cfg)
unfolding usable
usable-cached force cfg t api h =
    elim (Bool-cases (not force && same_management_config (cache_after t).cached_config cfg)) [
      | inl e ↦ (ground (e, h, arith), same_management_config→≡ _ cfg (ground (e, arith)))
      | inr n ↦ absurd (ground (h, n, arith))
    ]

module _ (env : Env) where
  -- The backend gave this client for these credentials.
  abbrev pub Granted : Api → ManagementConfig → List Call → Type 0
  Granted api cfg [] = ⊥
  Granted api cfg (authenticate c ∷ t) =
      ((c ≡ cfg) × (env.authenticated t c ≡ ok api)) ⊎ Granted api cfg t
  Granted api cfg (_ ∷ t) = Granted api cfg t

  -- The cached client, if there is one, was given for the cached configuration.
  unfoldable pub Coherent : List Call → Type 0
  Coherent t =
      (api : Api)
      → (cache_after t).cached_client ≡ some api
      → Granted api (cache_after t).cached_config t

  authenticate_fresh-Granted :
      (cfg : ManagementConfig) (t : List Call)
      → Coherent t
      → Coherent (authenticate_fresh env cfg t).1
        × ((api : Api)
            → (authenticate_fresh env cfg t).0 ≡ ok api
            → Granted api cfg (authenticate_fresh env cfg t).1)
  unfolding authenticate_fresh Coherent cache_after
  authenticate_fresh-Granted cfg t h = elim (Result-cases (env.authenticated t cfg)) [
    | inr (x, e) ↦ rw e ((λ api same. inr (h api same)), λ api same. cc)
    | inl (new, e) ↦ rw e ((λ api same. inl (refl, cc)), λ api same. inl (refl, cc))
  ]

  client_for-Granted :
      (cfg : ManagementConfig) (found : Option Api) (t : List Call)
      → Coherent t
      → ((api : Api) → found ≡ some api → Granted api cfg t)
      → Coherent (client_for env cfg found t).1
        × ((api : Api)
            → (client_for env cfg found t).0 ≡ ok api
            → Granted api cfg (client_for env cfg found t).1)
  unfolding client_for
  client_for-Granted cfg none t h given = authenticate_fresh-Granted cfg t h
  client_for-Granted cfg (some cached) t h given = (h, λ api same. given api cc)

  -- A client is handed out only for the credentials that were just loaded, and only if the backend gave
  -- it for them; and the cached client stays one that was given for the cached configuration.
  pub get_or_authenticate-Granted :
      (force : Bool) (t : List Call)
      → Coherent t
      → Coherent (get_or_authenticate env force t).1
        × ((api : Api)
            → (get_or_authenticate env force t).0 ≡ ok api
            → (cfg : ManagementConfig) × (env.config_loaded t ≡ ok cfg)
              × Granted api cfg (get_or_authenticate env force t).1)
  unfolding get_or_authenticate Coherent cache_after
  get_or_authenticate-Granted force t h = elim (Result-cases (env.config_loaded t)) [
    | inr (x, e) ↦ rw e (h, λ api same. cc)
    | inl (cfg, e) ↦
        let s = load_config ∷ t in
        let found = usable force cfg (cache_after t) in
        let given : (api : Api) → found ≡ some api → Granted api cfg s = λ api same.
          let cached = usable-cached force cfg t api same in
          subst (λ c. Granted api c t) cached.1 (h api cached.0) in
        let got = client_for-Granted cfg found s h given in
        rw e (got.0, λ api same. (cfg, refl, got.1 api same))
  ]

  -- The function ran with the client got at this point, which the backend gave for the credentials
  -- loaded there, and its answer is the end.
  abbrev pub RanGranted :
      {A : Type 0} → Bool → List Call → (Api → Exec (Result A)) → Result A × List Call → Type 0
  RanGranted force s fn end =
      (api : Api) × (cfg : ManagementConfig) × (env.config_loaded s ≡ ok cfg)
      × ((get_or_authenticate env force s).0 ≡ ok api)
      × Granted api cfg (get_or_authenticate env force s).1
      × (fn api (get_or_authenticate env force s).1 ≡ end)

  -- No client was there: the credentials could not be loaded, or the backend did not take them.
  abbrev pub NoClient : {A : Type 0} → Bool → List Call → Result A × List Call → Type 0
  NoClient force s end =
      (e : Err) × ((get_or_authenticate env force s).0 ≡ err e)
      × (end ≡ (err e, (get_or_authenticate env force s).1))

  abbrev pub Ended :
      {A : Type 0} → Bool → List Call → (Api → Exec (Result A)) → Result A × List Call → Type 0
  Ended force s fn end = NoClient force s end ⊎ RanGranted force s fn end

  -- The first run of the function was rejected by the backend, and the cache was cleared.
  abbrev pub Rejected : {A : Type 0} → (Api → Exec (Result A)) → List Call → List Call → Type 0
  Rejected fn t s =
      (api : Api) × (e : Err) × ((get_or_authenticate env false t).0 ≡ ok api)
      × ((fn api (get_or_authenticate env false t).1).0 ≡ err e)
      × (should_reauthenticate e ≡ true)
      × (s ≡ invalidate ∷ (fn api (get_or_authenticate env false t).1).1)

  -- A function that makes requests keeps the cache coherent.
  abbrev pub Keeps : {A : Type 0} → (Api → Exec (Result A)) → Type 0
  Keeps fn = (api : Api) (t : List Call) → Coherent t → Coherent (fn api t).1

  get-ends :
      {A : Type 0} (force : Bool) (fn : Api → Exec (Result A)) (t : List Call)
      → Coherent t
      → Keeps fn
      → Coherent (attempt (get_or_authenticate env force) err fn t).1
        × Ended force t fn (attempt (get_or_authenticate env force) err fn t)
  get-ends force fn t h k =
      let got = get_or_authenticate env force t in
      let granted = get_or_authenticate-Granted force t h in
      elim (Result-cases got.0) [
        | inr (x, e) ↦ rw e (granted.0, inl (x, refl, refl))
        | inl (api, e) ↦
            let given = granted.1 api e in
            rw e (k api got.1 granted.0, inr (api, given.0, given.1, refl, given.2, refl))
      ]

  pub invalidate-Coherent : (t : List Call) → Coherent (invalidate ∷ t)
  unfolding Coherent cache_after
  invalidate-Coherent t api same = cc

  -- From a coherent cache, and with a function that keeps it coherent, an operation ends in its first
  -- try, or its first run is rejected, the cache is cleared, and the operation ends in the second try,
  -- which authenticates anew. A try ends with the error of getting a client, or with what the function
  -- answers when it runs with the client that was got, one that the backend gave for the credentials
  -- just loaded: never one for credentials that were replaced. The cached client stays one that was
  -- given for the cached credentials.
  pub use_authenticated_client-Granted :
      {A : Type 0} (fn : Api → Exec (Result A)) (t : List Call)
      → Coherent t
      → Keeps fn
      → Coherent (use_authenticated_client env fn t).1
        × (Ended false t fn (use_authenticated_client env fn t)
            ⊎ ((s : List Call) × Rejected fn t s
                × Ended true s fn (use_authenticated_client env fn t)))
  unfolding use_authenticated_client unless_rejected try_again
  use_authenticated_client-Granted fn t h k =
      let got = get_or_authenticate env false t in
      let granted = get_or_authenticate-Granted false t h in
      elim (Result-cases got.0) [
        | inr (x, e) ↦ rw e (granted.0, inl (inl (x, refl, refl)))
        | inl (api, e) ↦
            let given = granted.1 api e in
            let ran = fn api got.1 in
            let kept = k api got.1 granted.0 in
            elim (Result-cases ran.0) [
              | inl (a, f) ↦
                  rw (e, f, unless_rejected)
                    (kept, inl (inr (api, given.0, given.1, refl, given.2, λ i. (f i, ran.1))))
              | inr (x, f) ↦ elim (Bool-cases (should_reauthenticate x)) [
                | inr n ↦
                    rw (e, f, unless_rejected, n)
                      (kept, inl (inr (api, given.0, given.1, refl, given.2, λ i. (f i, ran.1))))
                | inl y ↦
                    let s = invalidate ∷ ran.1 in
                    let again = get-ends true fn s (invalidate-Coherent ran.1) k in
                    rw (e, f, unless_rejected, y)
                      (again.0, inr (s, (api, x, refl, f, y, refl), again.1))
              ]
            ]
      ]
