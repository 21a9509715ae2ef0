-- ===== src/Openziti/Client/Pages.antt =====
-- The lists of the management client (client.go, edge_router.go, service_edge_router_policy.go), which
-- it reads page by page. The loops run on fuel; the offset grows by the number of items of a page.
pub mod Whole
use miniziti_operator.Prelude.{
  ℕ, suc, zero, ◌+◌, String, Bool, true, false, not, ◌||◌, Option, none, some, List, [], ◌∷◌, ◌++◌,
  ◌==◌, eqb, ltb, length, if◌then◌else◌,
}
use miniziti_operator.Strings.{trim_space}
use miniziti_operator.Errors.{Err, Result, ok, err, text, wrapped, panicked}
use miniziti_operator.Calls.{pure, perform, attempt, handle, then_do}
use miniziti_operator.Openziti.{
  Identity, AccessPolicy, Service, ServiceEdgeRouterPolicy, EdgeRouter,
}
use miniziti_operator.Openziti.Rest.{
  IdentityDetail, ServiceDetail, ServicePolicyDetail, ServiceEdgeRouterPolicyDetail,
  EdgeRouterDetail, ConfigTypeDetail,
}
use miniziti_operator.Openziti.Convert.{
  identity_from_envelope, service_from_envelope, access_policy_from_envelope,
  router_policy_from_detail, edge_router_from_detail,
}
use miniziti_operator.Openziti.Client.{
  Api, Kind, list, Call, request, Env, Exec, use_authenticated_client,
}

abbrev pub limit : ℕ
limit = 100

-- `count == 0 || count < int(limit)`
abbrev pub is_last : ℕ → Bool
is_last count = eqb count 0 || ltb count limit

-- No fuel is left.
abbrev out_of_fuel : Err
out_of_fuel = text "more pages than fuel"

module _ {D O : Type 0} (kind : Kind) (page : List Call → ℕ → Result (Option (List D)))
    (accept : D → Option O) (api : Api) where
  -- The loop over the items of a page: the first one that is accepted.
  unfoldable pub first : List D → Option O
  first [] = none
  first (item ∷ items) =
      let rest = first items in elim (accept item) [ some o ↦ some o | none ↦ rest ]

  abbrev pub get_page : ℕ → Exec (Result (Option (List D)))
  get_page offset = perform (request api (list kind offset)) (λ t. page t offset)

  -- What a search does with a page; `rest` goes on at the given offset.
  unfoldable pub search_page :
      (ℕ → Exec (Result (Option O))) → ℕ → Option (List D) → Exec (Result (Option O))
  unfolding first
  search_page rest offset none = pure (ok none)
  search_page rest offset (some items) = elim (first items) [
    | some o ↦ pure (ok (some o))
    | none ↦ if is_last (length items) then pure (ok none) else rest (offset + length items)
  ]

  -- The loops of the Find...ByName operations
  unfoldable pub search_pages : ℕ → ℕ → Exec (Result (Option O))
  unfolding search_page
  search_pages zero offset = pure (err out_of_fuel)
  search_pages (suc fuel) offset =
      attempt (get_page offset) (λ x. err (wrapped "list" x))
        (search_page (search_pages fuel) offset)

-- `item.Name == name`
abbrev named : {O : Type 0} → (O → String) → String → Option O → Option O
named name_of name none = none
named name_of name (some o) = if name_of o == name then some o else none

module _ (env : Env) (fuel : ℕ) where
  -- FindAccessPolicyByName
  unfoldable pub find_access_policy_by_name : String → Exec (Result (Option AccessPolicy))
  unfolding search_pages access_policy_from_envelope use_authenticated_client
  find_access_policy_by_name name = use_authenticated_client env λ api.
      search_pages Kind.service_policy (env.service_policy_page api)
        (λ d. named (λ p. p.name) name (access_policy_from_envelope (some d))) api fuel 0

  -- FindServiceEdgeRouterPolicyByName
  unfoldable pub find_service_edge_router_policy_by_name :
      String → Exec (Result (Option ServiceEdgeRouterPolicy))
  unfolding search_pages router_policy_from_detail use_authenticated_client
  find_service_edge_router_policy_by_name name = use_authenticated_client env λ api.
      search_pages Kind.service_edge_router_policy (env.router_policy_page api)
        (λ d. named (λ p. p.name) name (router_policy_from_detail (some d))) api fuel 0

  -- FindEdgeRouterByName
  unfoldable pub find_edge_router_by_name : String → Exec (Result (Option EdgeRouter))
  unfolding search_pages edge_router_from_detail use_authenticated_client
  find_edge_router_by_name name = use_authenticated_client env λ api.
      search_pages Kind.edge_router (env.edge_router_page api)
        (λ d. named (λ r. r.name) name (edge_router_from_detail (some d))) api fuel 0

-- FindServiceByName, which reads one page; resp.Payload is not checked for nil.
unfoldable pub find_service_by_name : Env → String → Exec (Result (Option Service))
unfolding first service_from_envelope use_authenticated_client
find_service_by_name env name = use_authenticated_client env λ api.
    attempt (perform (request api (list Kind.service 0)) (λ t. env.service_page api t 0))
      (λ x. err (wrapped "list services" x))
      λ items. pure (elim items [
        | none ↦ err panicked
        | some ds ↦ ok (
            first Kind.service (env.service_page api)
              (λ d. named (λ s. s.name) name (service_from_envelope (some d))) api ds)
      ])

-- The items of a page of ListIdentities
unfoldable pub identities_of : List IdentityDetail → Result (List Identity)
unfolding identity_from_envelope
identities_of [] = ok []
identities_of (d ∷ ds) =
    let rest = identities_of ds in
    elim (identity_from_envelope (some d)) [
      | err x ↦ err (wrapped "list identities" x)
      | ok i ↦ elim rest [ err x ↦ err x | ok is ↦ ok (i ∷ is) ]
    ]

module _ (env : Env) (api : Api) where
  unfoldable pub add_page :
      (List Identity → ℕ → Exec (Result (List Identity)))
      → List Identity
      → ℕ
      → Option (List IdentityDetail)
      → Exec (Result (List Identity))
  unfolding identities_of
  add_page rest sofar offset none = pure (err (text "identity list response has no data"))
  add_page rest sofar offset (some items) = handle (identities_of items) err λ identities.
      if is_last (length items)
      then pure (ok (sofar ++ identities))
      else rest (sofar ++ identities) (offset + length items)

  unfoldable pub list_pages : ℕ → List Identity → ℕ → Exec (Result (List Identity))
  unfolding add_page
  list_pages zero sofar offset = pure (err out_of_fuel)
  list_pages (suc fuel) sofar offset =
      attempt
        (perform (request api (list Kind.identity offset)) (λ t. env.identity_page api t offset))
        (λ x. err (wrapped "list identities" x)) (add_page (list_pages fuel) sofar offset)

-- ListIdentities
unfoldable pub list_identities : Env → ℕ → Exec (Result (List Identity))
unfolding list_pages use_authenticated_client
list_identities env fuel = use_authenticated_client env (λ api. list_pages env api fuel [] 0)

abbrev pub with_name : String → List Identity → Option Identity
with_name name [] = none
with_name name (i ∷ is) = let rest = with_name name is in if i.name == name then some i else rest

-- FindIdentityByName
unfoldable pub find_identity_by_name : Env → ℕ → String → Exec (Result (Option Identity))
unfolding list_identities
find_identity_by_name env fuel name =
    attempt (list_identities env fuel) err (λ identities. pure (ok (with_name name identities)))

-- The items of resolveConfigTypeIDWithAPI that are complete.
abbrev pub complete_type : ConfigTypeDetail → Option (String × String)
complete_type d = elim d.id [
  | none ↦ none
  | some id ↦ elim d.name [ none ↦ none | some name ↦ some (trim_space id, trim_space name) ]
]

module _ (env : Env) (api : Api) (name : String) where
  -- The loop over the items: the id of the first item of the name, and the number of complete items.
  unfoldable pub type_in : List ConfigTypeDetail → Option String × ℕ
  unfolding trim_space
  type_in [] = (none, 0)
  type_in (d ∷ ds) =
      let rest = type_in ds in
      elim (complete_type d) [
        | none ↦ rest
        | some c ↦ if c.1 == name then (some c.0, suc rest.1) else (rest.0, suc rest.1)
      ]

  abbrev type_not_found : Err
  type_not_found = text "config type not found"

  unfoldable pub type_page :
      (ℕ → Exec (Result String)) → ℕ → Option (List ConfigTypeDetail) → Exec (Result String)
  unfolding type_in
  type_page rest offset none = pure (err type_not_found)
  type_page rest offset (some items) = elim (type_in items).0 [
    | some id ↦ pure (ok id)
    | none ↦
        if is_last (type_in items).1
        then pure (err type_not_found)
        else rest (offset + (type_in items).1)
  ]

  unfoldable pub type_pages : ℕ → ℕ → Exec (Result String)
  unfolding type_page
  type_pages zero offset = pure (err out_of_fuel)
  type_pages (suc fuel) offset =
      attempt
        (perform (request api (list Kind.config_type offset))
          (λ t. env.config_type_page api t offset))
        (λ x. err (wrapped "list config types" x)) (type_page (type_pages fuel) offset)

-- resolveConfigTypeIDWithAPI
unfoldable pub resolve_config_type_id : Env → ℕ → Api → String → Exec (Result String)
unfolding type_pages trim_space
resolve_config_type_id env fuel api type =
    if trim_space type == ""
    then pure (err (text "config type name must not be empty"))
    else type_pages env api (trim_space type) fuel 0
