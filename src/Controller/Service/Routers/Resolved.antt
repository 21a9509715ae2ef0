-- ===== src/Controller/Service/Routers/Resolved.antt =====
-- What a resolution of a service's routers has found in the backend.
use mathlib.Core.Path.{subst}
use miniziti_operator.Prelude.{
  String, ◌≡◌, refl, true, false, none, some, List, [], ◌∷◌, ◌==◌, arith, eq_iff, Bool-cases,
  Option-cases, All, All-map, inl, inr, ◌⊎◌,
}
use miniziti_operator.Strings.{trim_space, contains, equal_fold}
use miniziti_operator.Errors.{ok, Result-cases}
use miniziti_operator.Openziti.{Identity, EdgeRouter}
use miniziti_operator.Openziti.Policy.{snoc}
use miniziti_operator.Openziti.Policy.Expressions.{contains-snoc}
use miniziti_operator.Openziti.ServiceModel.{RouterPolicySet, router_policies}
use miniziti_operator.Api.{ServiceRouterSpec, ZitiService}
use miniziti_operator.Controller.Service.Effects.{Call, find_identity, Env}
use miniziti_operator.Controller.Service.Routers.{
  resolve_edge_router_id, resolve_additional, resolve_routers, desired_router_policies,
}

module _ (env : Env) where
  -- The backend has an edge router of this name, with this id, which is not blank.
  abbrev pub HasRouter : List Call → String → String → Type 0
  HasRouter t name id =
      (router : EdgeRouter) × (env.edge_router_by_name t name ≡ ok (some router))
      × (id ≡ trim_space router.id)
      × ((id == "") ≡ false)

  resolve_edge_router_id-HasRouter :
      (name : String) (t : List Call) (id : String)
      → (resolve_edge_router_id env name t).0 ≡ ok id
      → HasRouter t name id
  unfolding resolve_edge_router_id
  resolve_edge_router_id-HasRouter name t id h =
      elim (Result-cases (env.edge_router_by_name t name)) [
        | inr (x, e) ↦ absurd (ground (e, h, arith))
        | inl (none, e) ↦ absurd (ground (e, h, arith))
        | inl (some router, e) ↦ elim (Bool-cases (trim_space router.id == "")) [
          | inl blank ↦ absurd (ground (e, blank, h, arith))
          | inr has ↦
              let same : trim_space router.id ≡ id = ground (e, has, h, arith) in
              rw (← same) (router, e, refl, has)
        ]
      ]

  -- The name is one of those that were seen, or an edge router of it was found, whose id is in the list.
  abbrev pub Named : List String → List String → String → Type 0
  Named seen ids raw =
      ((trim_space raw == "") ≡ false)
      × ((contains seen (trim_space raw) ≡ true)
          ⊎ ((t : List Call) × (id : String) × HasRouter t (trim_space raw) id
              × (contains ids id ≡ true)))

  -- A name that was seen just before the others.
  Named-seen :
      (name : String) (seen ids : List String) (t : List Call) (id raw : String)
      → HasRouter t name id
      → contains ids id ≡ true
      → Named (name ∷ seen) ids raw
      → Named seen ids raw
  unfolding contains
  Named-seen name seen ids t id raw has held (full, inr found) = (full, inr found)
  Named-seen name seen ids t id raw has held (full, inl known) =
      elim (Bool-cases (name == trim_space raw)) [
        | inr other ↦ (full, inl (ground (other, known, arith)))
        | inl same ↦ (
          full,
          inr (
            t,
            id,
            subst (λ n. HasRouter t n id) ((eq_iff name (trim_space raw)).0 same) has,
            held,
          ),
        )
      ]

  resolve_additional-Named :
      (seen ids names : List String) (t : List Call) (result : List String)
      → (resolve_additional env seen ids names t).0 ≡ ok result
      → ((id : String) → contains ids id ≡ true → contains result id ≡ true)
        × All (Named seen result) names
  unfolding resolve_additional
  resolve_additional-Named seen ids [] t result h =
      let same : ids ≡ result = ground (h, arith) in (λ id held. rw (← same) held, tt)
  resolve_additional-Named seen ids (raw ∷ names) t result h =
      let name = trim_space raw in
      elim (Bool-cases (name == "")) [
        | inl blank ↦ absurd (ground (blank, h, arith))
        | inr full ↦ elim (Bool-cases (contains seen name)) [
          | inl known ↦
              let skipped : (resolve_additional env seen ids names t).0 ≡ ok result =
                rw (← h) (rw (full, known) refl) in
              let rest = resolve_additional-Named seen ids names t result skipped in
              (rest.0, ((full, inl known), rest.1))
          | inr new ↦
              let found = resolve_edge_router_id env name t in
              elim (Result-cases found.0) [
                | inr (x, e) ↦ absurd (ground (full, new, e, h, arith))
                | inl (id, e) ↦
                    let went : (resolve_additional env (name ∷ seen) (snoc ids id) names found.1).0
                        ≡ ok result =
                      rw (← h) (rw (full, new, e) refl) in
                    let rest =
                      resolve_additional-Named (name ∷ seen) (snoc ids id) names found.1 result
                        went in
                    let has = resolve_edge_router_id-HasRouter name t id e in
                    let held : contains result id ≡ true =
                      rest.0 id (ground (contains-snoc ids id id, (eq_iff id id).1 refl, arith)) in
                    (
                      λ other there.
                          rest.0 other (ground (contains-snoc ids id other, there, arith)),
                      (
                        (full, inr (t, id, has, held)),
                        All-map (Named (name ∷ seen) result) (Named seen result) names
                            (λ r n. Named-seen name seen result t id r has held n) rest.1,
                      ),
                    )
              ]
        ]
      ]

  -- The router's identity was found, of type Router, and its edge router, and an edge router for every
  -- additional name; the policies are made of what was found.
  abbrev pub AllResolved : ZitiService → String → List Call → RouterPolicySet → Type 0
  AllResolved service service_id t policies =
      (router : ServiceRouterSpec) × (identity : Identity) × (host : String) × (additional : List
        String)
      × (service.spec.router ≡ some router)
      × (env.identity_by_name t (trim_space router.name) ≡ ok (some identity))
      × ((trim_space identity.id == "") ≡ false)
      × (equal_fold env.tables (trim_space identity.type) "Router" ≡ true)
      × HasRouter (find_identity (trim_space router.name) ∷ t) (trim_space router.name) host
      × All (Named (trim_space router.name ∷ []) additional)
          router.additional_allowed_edge_router_names
      × (router_policies service service_id identity.id host additional ≡ some policies)

  resolve_routers-AllResolved :
      (service : ZitiService) (service_id : String) (router : ServiceRouterSpec) (t : List Call)
      (policies : RouterPolicySet)
      → service.spec.router ≡ some router
      → (resolve_routers env service service_id router t).0 ≡ ok policies
      → AllResolved service service_id t policies
  unfolding resolve_routers
  resolve_routers-AllResolved service service_id router t policies is_router h =
      let name = trim_space router.name in
      let s = find_identity name ∷ t in
      let names = router.additional_allowed_edge_router_names in
      elim (Bool-cases (name == "")) [
        | inl blank ↦ absurd (ground (blank, h, arith))
        | inr full ↦ elim (Result-cases (env.identity_by_name t name)) [
          | inr (x, e) ↦ absurd (ground (full, e, h, arith))
          | inl (none, e) ↦ absurd (ground (full, e, h, arith))
          | inl (some identity, e) ↦ elim (Bool-cases (trim_space identity.id == "")) [
            | inl no_id ↦ absurd (ground (full, e, no_id, h, arith))
            | inr has_id ↦
                elim (Bool-cases (equal_fold env.tables (trim_space identity.type) "Router")) [
                  | inr other ↦ absurd (ground (full, e, has_id, other, h, arith))
                  | inl is_type ↦
                      let first = resolve_edge_router_id env name s in
                      elim (Result-cases first.0) [
                        | inr (x, f) ↦ absurd (ground (full, e, has_id, is_type, f, h, arith))
                        | inl (host, f) ↦
                            let more = resolve_additional env (name ∷ []) [] names first.1 in
                            elim (Result-cases more.0) [
                              | inr (x, g) ↦
                                  absurd (ground (full, e, has_id, is_type, f, g, h, arith))
                              | inl (additional, g) ↦
                                  elim (Option-cases (
                                    router_policies service service_id identity.id host
                                      additional)) [
                                        | inl k ↦
                                            absurd
                                              (ground (full, e, has_id, is_type, f, g, k, h, arith))
                                        | inr (made, k) ↦
                                            let same : made ≡ policies =
                                              ground
                                                (full, e, has_id, is_type, f, g, k, h, arith) in
                                            (
                                              router,
                                              identity,
                                              host,
                                              additional,
                                              is_router,
                                              e,
                                              has_id,
                                              is_type,
                                              resolve_edge_router_id-HasRouter name s host f,
                                              (resolve_additional-Named (name ∷ []) [] names first.1
                                                  additional g).1,
                                              rw (← same) k,
                                            )
                                      ]
                            ]
                      ]
                ]
          ]
        ]
      ]

  pub desired_router_policies-AllResolved :
      (service : ZitiService) (service_id : String) (t : List Call) (policies : RouterPolicySet)
      → (desired_router_policies env service service_id t).0 ≡ ok policies
      → AllResolved service service_id t policies
  unfolding desired_router_policies
  desired_router_policies-AllResolved service service_id t policies h =
      elim (Option-cases service.spec.router) [
        | inl e ↦ absurd (ground (e, h, arith))
        | inr (router, e) ↦
            let went : (resolve_routers env service service_id router t).0 ≡ ok policies =
              rw (← h) (rw e refl) in
            resolve_routers-AllResolved service service_id router t policies e went
      ]
