-- ===== src/Openziti/Convert.antt =====
-- The objects that internal/openziti/client makes of the details of the management API.
use miniziti_operator.Prelude.{
  String, false, ◌||◌, Option, none, some, List, [], ◌==◌, if◌then◌else◌,
}
use miniziti_operator.Strings.{trim_space}
use miniziti_operator.Errors.{Result, ok, err, text}
use miniziti_operator.Openziti.{
  Identity, AccessPolicy, Service, ServiceConfig, EdgeRouter, ServiceEdgeRouterPolicy,
}
use miniziti_operator.Openziti.Rest.{
  IdentityDetail, ServiceDetail, ConfigDetail, ServicePolicyDetail, ServiceEdgeRouterPolicyDetail,
  EdgeRouterDetail,
}

abbrev or_empty : Option (List String) → List String
or_empty none = []
or_empty (some xs) = xs

abbrev or_blank : Option String → String
or_blank none = ""
or_blank (some s) = s

-- identityFromEnvelope
unfoldable pub identity_from_envelope : Option IdentityDetail → Result Identity
unfolding trim_space
identity_from_envelope none = err (text "identity detail response has no data")
identity_from_envelope (some detail) = elim detail.id [
  | none ↦ missing
  | some id ↦ elim detail.name [
    | none ↦ missing
    | some name ↦ elim detail.type [
      | none ↦ missing
      | some type ↦
          if trim_space id == "" || (trim_space name == "" || trim_space type == "")
          then missing
          else ok (record {
            id = id;
            name = name;
            type = type;
            role_attributes = or_empty detail.role_attributes;
            create_ott = false;
            external_id = or_blank detail.external_id;
          })
    ]
  ]
]
  where
    missing : Result Identity
    missing = err (text "identity detail response has missing required fields")

-- serviceFromEnvelope
unfoldable pub service_from_envelope : Option ServiceDetail → Option Service
service_from_envelope none = none
service_from_envelope (some detail) = elim detail.id [
  | none ↦ none
  | some id ↦ elim detail.name [
    | none ↦ none
    | some name ↦ some (record {
      id = id;
      name = name;
      role_attributes = or_empty detail.role_attributes;
      config_ids = detail.configs;
    })
  ]
]

-- configFromEnvelope
unfoldable pub config_from_envelope : Option ConfigDetail → Option ServiceConfig
unfolding trim_space
config_from_envelope none = none
config_from_envelope (some detail) = elim detail.id [
  | none ↦ none
  | some id ↦ elim detail.name [
    | none ↦ none
    | some name ↦ elim detail.config_type [
      | none ↦ none
      | some type ↦
          if trim_space type == ""
          then none
          else some (record {
            id = id;
            name = name;
            type = type;
            payload = elim detail.typed_data [ none ↦ some [] | some typed ↦ some typed ];
          })
    ]
  ]
]

-- accessPolicyFromEnvelope
unfoldable pub access_policy_from_envelope : Option ServicePolicyDetail → Option AccessPolicy
access_policy_from_envelope none = none
access_policy_from_envelope (some detail) = elim detail.id [
  | none ↦ none
  | some id ↦ elim detail.name [
    | none ↦ none
    | some name ↦ elim detail.type [
      | none ↦ none
      | some type ↦ elim detail.semantic [
        | none ↦ none
        | some semantic ↦ some (record {
          id = id;
          name = name;
          type = type;
          identity_roles = detail.identity_roles;
          service_roles = detail.service_roles;
          identity_roles_raw = detail.identity_roles;
          service_roles_raw = detail.service_roles;
          semantic = semantic;
        })
      ]
    ]
  ]
]

-- serviceEdgeRouterPolicyFromDetail
unfoldable pub router_policy_from_detail :
    Option ServiceEdgeRouterPolicyDetail → Option ServiceEdgeRouterPolicy
unfolding trim_space
router_policy_from_detail none = none
router_policy_from_detail (some detail) = elim detail.id [
  | none ↦ none
  | some id ↦ elim detail.name [
    | none ↦ none
    | some name ↦ elim detail.semantic [
      | none ↦ none
      | some semantic ↦ some (record {
        id = trim_space id;
        name = trim_space name;
        edge_router_roles = detail.edge_router_roles;
        service_roles = detail.service_roles;
        semantic = semantic;
      })
    ]
  ]
]

-- edgeRouterFromDetail
unfoldable pub edge_router_from_detail : Option EdgeRouterDetail → Option EdgeRouter
unfolding trim_space
edge_router_from_detail none = none
edge_router_from_detail (some detail) = elim detail.id [
  | none ↦ none
  | some id ↦ elim detail.name [
    | none ↦ none
    | some name ↦
        if trim_space name == ""
        then none
        else some (record { id = trim_space id; name = trim_space name })
  ]
]
