-- ===== src/Controller/AccessPolicy/Run/Resolution.antt =====
-- What resolveSelectors finds for the selectors of a policy.
use miniziti_operator.Prelude.{
  ◌+◌, String, ◌≡◌, false, ◌&&◌, List, ◌∷◌, map, eqb, arith, Bool-cases, inl, inr, ◌⊎◌,
}
use miniziti_operator.Strings.{contains}
use miniziti_operator.Errors.{ok, Result-cases}
use miniziti_operator.Openziti.{Identity}
use miniziti_operator.Api.{SelectorSpec, ZitiAccessPolicy, ZitiIdentity, ZitiService}
use miniziti_operator.Controller.AccessPolicy.Selectors.{
  Selectable, Tally, no_matches, tally_items, tally_backend, identity_item, service_item,
  backend_item,
}
use miniziti_operator.Controller.AccessPolicy.Selectors.Matches.{
  granted, waiting, matched, granted-unmatched, tally_backend-adds, tally_items-exact,
}
use miniziti_operator.Controller.AccessPolicy.Effects.{
  Call, list_identities, list_services, Env, SelectorResolution,
}
use miniziti_operator.Controller.AccessPolicy.Run.{
  resolve_backend_identity_selector, resolve_identities, resolve_selectors,
}

-- The tally holds what the selector matches among the items.
abbrev pub Found : SelectorSpec → List Selectable → Tally → Type 0
Found selector items tally =
    ((id : String) → contains tally.ids id ≡ granted selector items id)
    × (tally.pending ≡ waiting selector items)
    × (tally.count + tally.pending ≡ matched selector items)

module _ (env : Env) where
  -- The identities of the namespace that match, or, if none of them does, those of the backend.
  abbrev pub FoundIdentities : SelectorSpec → List ZitiIdentity → List Call → Tally → Type 0
  FoundIdentities selector identities t tally =
      ((eqb (matched selector (map identity_item identities)) 0 ≡ false)
        × Found selector (map identity_item identities) tally)
      ⊎ ((matched selector (map identity_item identities) ≡ 0)
          × ((backend : List Identity) × (env.backend_identities t ≡ ok backend)
              × ((id : String)
                  → contains tally.ids id ≡ granted selector (map backend_item backend) id)
              × (tally.pending ≡ 0)
              × (tally.count ≡ matched selector (map backend_item backend))))

  -- What the selectors of the policy match, by the lists that were read one after the other.
  abbrev pub Resolved : ZitiAccessPolicy → List Call → SelectorResolution → Type 0
  Resolved policy t resolution =
      let namespace = policy.meta.namespace in
      let s = list_identities namespace ∷ t in
      (identities : List ZitiIdentity) × (services : List ZitiService) × (env.identities t namespace
        ≡ ok identities)
      × (env.services s namespace ≡ ok services)
      × FoundIdentities policy.spec.identity_selector identities (list_services namespace ∷ s)
          resolution.identity
      × Found policy.spec.service_selector (map service_item services) resolution.service

  resolve_identities-Found :
      (selector : SelectorSpec) (identities : List ZitiIdentity) (t : List Call) (tally : Tally)
      → (resolve_identities env selector identities t).0 ≡ ok tally
      → FoundIdentities selector identities t tally
  unfolding resolve_identities resolve_backend_identity_selector
  resolve_identities-Found selector identities t tally h =
      let items = map identity_item identities in
      let own = tally_items selector no_matches items in
      let (ids, pending, counts) = tally_items-exact selector items in
      elim (Bool-cases (eqb own.count 0 && eqb own.pending 0)) [
        | inr n ↦
            let same : own ≡ tally = ground (n, h, arith) in
            rw (← same) (inl (ground (n, counts, arith), (ids, pending, counts)))
        | inl e ↦
            let empty : matched selector items ≡ 0 = ground (e, counts, arith) in
            elim (Bool-cases env.identity_service) [
              | inr off ↦ absurd (ground (e, off, h, arith))
              | inl on ↦ elim (Result-cases (env.backend_identities t)) [
                | inr (x, lost) ↦ absurd (ground (e, on, lost, h, arith))
                | inl (backend, known) ↦
                    let there = map backend_item backend in
                    let added = tally_backend-adds selector own there in
                    let same : tally_backend selector own there ≡ tally =
                      ground (e, on, known, h, arith) in
                    rw (← same) (
                      inr (
                        empty,
                        (
                          backend,
                          known,
                          (λ id. ground (
                            arith,
                            (added id).0,
                            ids id,
                            granted-unmatched selector items id empty,
                          )),
                          ground ((added "").1, e, arith),
                          ground ((added "").2, e, arith),
                        ),
                      ))
              ]
            ]
      ]

  pub resolve_selectors-Resolved :
      (policy : ZitiAccessPolicy) (t : List Call) (resolution : SelectorResolution)
      → (resolve_selectors env policy t).0 ≡ ok resolution
      → Resolved policy t resolution
  unfolding resolve_selectors
  resolve_selectors-Resolved policy t resolution h =
      let namespace = policy.meta.namespace in
      let s = list_identities namespace ∷ t in
      let u = list_services namespace ∷ s in
      elim (Result-cases (env.identities t namespace)) [
        | inr (x, lost) ↦ absurd (ground (lost, h, arith))
        | inl (identities, e) ↦ elim (Result-cases (env.services s namespace)) [
          | inr (x, lost) ↦ absurd (ground (e, lost, h, arith))
          | inl (services, f) ↦
              let found = resolve_identities env policy.spec.identity_selector identities u in
              elim (Result-cases found.0) [
                | inr (x, lost) ↦ absurd (ground (e, f, lost, h, arith))
                | inl (tally, known) ↦
                    let own =
                      tally_items policy.spec.service_selector no_matches
                        (map service_item services) in
                    let both : SelectorResolution = record { identity = tally; service = own } in
                    let same : both ≡ resolution = ground (e, f, known, h, arith) in
                    rw (← same) (
                      identities,
                      services,
                      e,
                      f,
                      resolve_identities-Found policy.spec.identity_selector identities u tally
                          known,
                      tally_items-exact policy.spec.service_selector (map service_item services),
                    )
              ]
        ]
      ]
