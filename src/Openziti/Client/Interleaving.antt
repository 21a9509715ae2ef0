-- ===== src/Openziti/Client/Interleaving.antt =====
-- The lock sections of the management client (client.go) as steps that goroutines take in any order. A
-- load, an authentication and a request happen outside the lock; each is a step of its own.
use mathlib.Core.Path.{subst}
use miniziti_operator.Prelude.{
  ℕ, ◌≡◌, refl, Bool, true, false, none, some, List, [], ◌∷◌, eqb, if◌then◌else◌, Bool-cases, inl,
  inr,
}
use miniziti_operator.Errors.{ok}
use miniziti_operator.Credentials.{ManagementConfig}
use miniziti_operator.Openziti.Client.{
  Api, Request, Call, load_config, authenticate, store, invalidate, request, Env, cache_after,
  usable,
}
use miniziti_operator.Openziti.Client.Session.{usable-cached, Granted, Coherent}

-- Where a goroutine is in useAuthenticatedClient; `forced` marks the second try.
pub data Phase : Type 0 where
  idle : Phase
  starting : Bool → Phase
  loaded : Bool → ManagementConfig → Phase
  missed : Bool → ManagementConfig → Phase
  granted : Bool → Api → ManagementConfig → Phase
  ready : Bool → Api → ManagementConfig → Phase

module _ (env : Env) where
  -- One step of a goroutine, with the calls before and after it.
  pub data Move (t : List Call) : Phase → List Call → Phase → Type 0 where
    begin : Move t idle t (starting false)
    load :
        {forced : Bool} {cfg : ManagementConfig}
        → env.config_loaded t ≡ ok cfg
        → Move t (starting forced) (load_config ∷ t) (loaded forced cfg)
    hit :
        {forced : Bool} {cfg : ManagementConfig} {api : Api}
        → usable forced cfg (cache_after t) ≡ some api
        → Move t (loaded forced cfg) t (ready forced api cfg)
    miss :
        {forced : Bool} {cfg : ManagementConfig}
        → usable forced cfg (cache_after t) ≡ none
        → Move t (loaded forced cfg) t (missed forced cfg)
    grant :
        {forced : Bool} {cfg : ManagementConfig} {api : Api}
        → env.authenticated t cfg ≡ ok api
        → Move t (missed forced cfg) (authenticate cfg ∷ t) (granted forced api cfg)
    keep :
        {forced : Bool} {cfg : ManagementConfig} {api : Api}
        → Move t (granted forced api cfg) (store api cfg ∷ t) (ready forced api cfg)
    work :
        {forced : Bool} {cfg : ManagementConfig} {api : Api} {r : Request}
        → Move t (ready forced api cfg) (request api r ∷ t) (ready forced api cfg)
    -- the backend answered 401 or 403
    reject :
        {cfg : ManagementConfig} {api : Api}
        → Move t (ready false api cfg) (invalidate ∷ t) (starting true)
    -- the operation ends, at any point
    leave : {p : Phase} → Move t p t idle

  pub record World : Type 0 where
    pub calls : List Call
    pub phase : ℕ → Phase

  abbrev pub set : (ℕ → Phase) → ℕ → Phase → ℕ → Phase
  set f i p j = if eqb i j then p else f j

  pub data Step (w : World) : World → Type 0 where
    run :
        (i : ℕ) {t : List Call} {p : Phase}
        → Move w.calls (w.phase i) t p
        → Step w (record { calls = t; phase = set w.phase i p })

  pub data Reach : World → Type 0 where
    initial : Reach (record { calls = []; phase = λ i. idle })
    next : {v w : World} → Reach v → Step v w → Reach w

  -- A client that a goroutine holds was given for the credentials that the goroutine loaded.
  abbrev pub Held : List Call → Phase → Type 0
  Held t (granted forced api cfg) = Granted env api cfg t
  Held t (ready forced api cfg) = Granted env api cfg t
  Held t _ = Unit

  -- What a step adds to the calls takes nothing back.
  abbrev Later : List Call → List Call → Type 0
  Later t t' = (api : Api) (cfg : ManagementConfig) → Granted env api cfg t → Granted env api cfg t'

  Move-Held :
      {t t' : List Call} {p p' : Phase}
      → Move t p t' p'
      → Coherent env t
      → Held t p
      → Coherent env t' × Held t' p' × Later t t'
  unfolding Coherent cache_after
  Move-Held begin h g = (h, tt, λ api cfg x. x)
  Move-Held (load e) h g = (h, tt, λ api cfg x. x)
  Move-Held {t} (hit {forced} {cfg} {api} e) h g =
      let cached = usable-cached forced cfg t api e in
      (h, subst (λ c. Granted env api c t) cached.1 (h api cached.0), λ api' cfg' x. x)
  Move-Held (miss e) h g = (h, tt, λ api cfg x. x)
  Move-Held (grant e) h g = ((λ api same. inr (h api same)), inl (refl, e), λ api cfg x. inr x)
  Move-Held {t} (keep {forced} {cfg} {api}) h g =
      ((λ api' same. subst (λ a. Granted env a cfg t) (cc) g), g, λ api' cfg' x. x)
  Move-Held work h g = (h, g, λ api cfg x. x)
  Move-Held reject h g = ((λ api' same. absurd cc), tt, λ api' cfg' x. x)
  Move-Held leave h g = (h, tt, λ api cfg x. x)

  Held-Later : (t t' : List Call) (p : Phase) → Later t t' → Held t p → Held t' p
  Held-Later t t' idle l g = g
  Held-Later t t' (starting forced) l g = g
  Held-Later t t' (loaded forced cfg) l g = g
  Held-Later t t' (missed forced cfg) l g = g
  Held-Later t t' (granted forced api cfg) l g = l api cfg g
  Held-Later t t' (ready forced api cfg) l g = l api cfg g

  Reach-Held : {w : World} → Reach w → Coherent env w.calls × ((i : ℕ) → Held w.calls (w.phase i))
  unfolding Coherent cache_after
  Reach-Held initial = ((λ api same. absurd cc), λ i. tt)
  Reach-Held {w} (next {v} r (run i {t} {p} move)) =
      let before = Reach-Held r in
      let after = Move-Held move before.0 (before.1 i) in
      (
        after.0,
        λ j. elim (Bool-cases (eqb i j)) [
          | inl e ↦ rw e after.1
          | inr n ↦ rw n (Held-Later v.calls t (v.phase j) after.2 (before.1 j))
        ],
      )

  -- However goroutines interleave, an authenticated call of any of them runs with a client that the
  -- backend gave for exactly the credentials that this goroutine loaded: no other goroutine's store, or
  -- invalidation, puts a client of replaced credentials into its hands.
  pub Reach-Granted :
      (w : World) (i : ℕ) (forced : Bool) (api : Api) (cfg : ManagementConfig)
      → Reach w
      → w.phase i ≡ ready forced api cfg
      → Granted env api cfg w.calls
  Reach-Granted w i forced api cfg r at = subst (λ p. Held w.calls p) at ((Reach-Held r).1 i)
