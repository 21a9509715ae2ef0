-- ===== src/Openziti/Policy.antt =====
-- internal/openziti/policy: role expressions and the desired access policy.
pub mod Expressions
use Prim.Native.String.{◌++◌}
use miniziti_operator.Prelude.{
  String, Bool, true, false, not, ◌||◌, List, [], ◌∷◌, ◌==◌, if◌then◌else◌,
}
use miniziti_operator.Strings.{trim_space, contains}
use miniziti_operator.Api.{SelectorSpec, ZitiAccessPolicy}
use miniziti_operator.Openziti.{AccessPolicy}

pub record ResolvedSelector : Type 0 where
  pub ids : List String
  pub role_attributes : List String

pub record DesiredPolicy : Type 0 where
  pub name : String
  pub type : String
  pub identity_roles : List String
  pub service_roles : List String
  pub identity_roles_raw : List String
  pub service_roles_raw : List String
  pub semantic : String

abbrev pub expression : String → String → String
expression mark name = mark ++ trim_space name

-- append(list, value)
unfoldable pub snoc : List String → String → List String
snoc [] v = v ∷ []
snoc (x ∷ xs) v = x ∷ snoc xs v

-- One of the two loops of selectorRoles and of CompileSelector: the expressions of the names with the
-- mark, after those that are there. The map `seen` holds what the list holds.
pub add_expressions : String → List String → List String → List String
unfolding trim_space contains snoc
add_expressions mark [] compiled = compiled
add_expressions mark (name ∷ names) compiled =
    let added = add_expressions mark names (snoc compiled (expression mark name)) in
    let left = add_expressions mark names compiled in
    if expression mark name == mark || contains compiled (expression mark name) then left else added

-- CompileSelector
unfoldable pub compile_selector : SelectorSpec → List String
unfolding add_expressions
compile_selector selector =
    add_expressions "#" selector.match_role_attributes (add_expressions "@" selector.match_names [])

-- selectorRoles
unfoldable pub selector_roles : ResolvedSelector → List String
unfolding add_expressions
selector_roles selector =
    add_expressions "#" selector.role_attributes (add_expressions "@" selector.ids [])

-- FromResource
unfoldable pub from_resource :
    ZitiAccessPolicy → ResolvedSelector → ResolvedSelector → DesiredPolicy
unfolding selector_roles
from_resource resource identity_selector service_selector = record {
  name = resource.meta.name;
  type = resource.spec.type;
  identity_roles = selector_roles identity_selector;
  service_roles = selector_roles service_selector;
  identity_roles_raw = selector_roles identity_selector;
  service_roles_raw = selector_roles service_selector;
  semantic = "AnyOf";
}

-- What Create (with the empty id) and Update pass to the client.
unfoldable pub to_access_policy : String → DesiredPolicy → AccessPolicy
to_access_policy id desired = record {
  id = id;
  name = desired.name;
  type = desired.type;
  identity_roles = desired.identity_roles;
  service_roles = desired.service_roles;
  identity_roles_raw = desired.identity_roles_raw;
  service_roles_raw = desired.service_roles_raw;
  semantic = desired.semantic;
}
