-- ===== src/Examples.antt =====
-- Runs of the theorems on small inputs: one role, one group with one user, one identity that matches.
-- Letters have no case in these runs, and condition lists are searched from the front.
mod PlanRuns
mod SyncRuns
mod DirectoryRuns
mod PolicyRuns
mod ServiceRuns
mod IdentityRuns
mod ClientRuns
mod CredentialRuns
use Prim.Native.Char.{Char, code}
use miniziti_operator.Prelude.{
  ℕ, String, ◌≡◌, ◌∙◌, refl, sym, Bool, true, false, Option, none, some, List, [], ◌∷◌, ◌==◌, arith,
  eq_iff, Bool-cases, inl, inr, eqb, if◌then◌else◌,
}
use miniziti_operator.Strings.{CaseTables}
use miniziti_operator.Errors.{Result, ok}
use miniziti_operator.Entra.{AppRole, ServicePrincipal, AppRoleAssignment, User}
use miniziti_operator.Openziti.{Identity}
use miniziti_operator.Rolesync.Ownership.{ResourceKey, SyncClaim}
use miniziti_operator.Rolesync.Scope.{RoleScope}
use miniziti_operator.Rolesync.Plan.{Input, PlanResult}
use miniziti_operator.Api.{ObjectMeta}
use miniziti_operator.Api.Conditions.{Condition, CommonStatus, FoundAfter, ApiMeta}

abbrev pub caseless : CaseTables
caseless = record { lower = λ c. c; same_orbit = λ a b. eqb (code a) (code b) }

abbrev pub find_condition : List Condition → String → Option Condition
find_condition [] type = none
find_condition (c ∷ cs) type =
    let rest = find_condition cs type in if c.type == type then some c else rest

abbrev pub put_condition : List Condition → Condition → List Condition
put_condition [] c = c ∷ []
put_condition (x ∷ cs) c =
    let rest = put_condition cs c in if x.type == c.type then c ∷ cs else x ∷ rest

pub find-put_self :
    (cs : List Condition) (c : Condition)
    → FoundAfter (find_condition (put_condition cs c) c.type) c
find-put_self [] c = rw ((eq_iff c.type c.type).1 refl) (c, refl, refl, refl, refl, refl, refl)
find-put_self (x ∷ cs) c = elim (Bool-cases (x.type == c.type)) [
  | inl e ↦ rw (e, (eq_iff c.type c.type).1 refl) (c, refl, refl, refl, refl, refl, refl)
  | inr n ↦ rw (n, n) (find-put_self cs c)
]

pub find-put_ne :
    (cs : List Condition) (c : Condition) (type : String)
    → (c.type == type) ≡ false
    → find_condition (put_condition cs c) type ≡ find_condition cs type
find-put_ne [] c type ne = rw ne refl
find-put_ne (x ∷ cs) c type ne = elim (Bool-cases (x.type == c.type)) [
  | inl e ↦ rw (e, (eq_iff x.type c.type).0 e, ne) refl
  | inr n ↦ rw (n, find-put_ne cs c type ne) refl
]

abbrev pub listed : ApiMeta
listed = record {
  find_status_condition = find_condition;
  set_status_condition = put_condition;
  find-set_self = find-put_self;
  find-set_ne = find-put_ne;
}

abbrev pub engineer : ServicePrincipal
engineer = record {
  id = "sp";
  app_roles =
      (record { id = "r1"; value = "eng"; allowed_member_types = "User" ∷ []; is_enabled = true })
      ∷ [];
}

abbrev pub to_group : List AppRoleAssignment
to_group = (record { principal_id = "g1"; principal_type = "Group"; app_role_id = "r1" }) ∷ []

abbrev pub scope : RoleScope
scope = record { current_values = "eng" ∷ []; grants_by_group = ("g1", "eng" ∷ []) ∷ [] }

abbrev pub ann : User
ann = record { id = "u1"; display_name = "Ann"; mail = "a@x"; user_principal_name = "a@x" }

-- The identity holds an attribute that is no longer granted, and one that nobody manages.
abbrev pub laptop : Identity
laptop = record {
  id = "i1";
  name = "laptop";
  type = "User";
  role_attributes = "ops" ∷ "mine" ∷ [];
  create_ott = false;
  external_id = "a@x";
}

abbrev pub key_of : String → ResourceKey
key_of name = record { namespace = "ns"; name = name }

abbrev pub claim_of : String → ℕ → List String → SyncClaim
claim_of name time values = record {
  resource = key_of name;
  creation_timestamp = time;
  managed_attributes = values;
}

abbrev pub input : Input
input = record {
  scope = scope;
  members_by_group = ("g1", ann ∷ []) ∷ [];
  identities = laptop ∷ [];
  identity_owners = [];
  self = claim_of "a" 1 ("ops" ∷ []);
  other_claims = [];
  user_property = "mail";
}

abbrev pub meta_of : String → ObjectMeta
meta_of name = record {
  namespace = "ns";
  name = name;
  uid = "uid";
  generation = 3;
  resource_version = "1";
  creation_timestamp = 1;
  deletion_timestamp = none;
  finalizers = [];
}

abbrev pub fresh : CommonStatus
fresh = record { id = ""; conditions = []; observed_generation = 0; last_error = "" }

-- The plan for the input.
abbrev pub plan : PlanResult
plan = record {
  current_values = "eng" ∷ [];
  managed_values = "eng" ∷ "ops" ∷ [];
  ownership = record { owners = ("eng", key_of "a") ∷ ("ops", key_of "a") ∷ []; conflicts = [] };
  patches =
      (record {
        identity_id = "i1";
        external_id = "a@x";
        granted_attributes = "eng" ∷ [];
        role_attributes = "mine" ∷ "eng" ∷ [];
      })
      ∷ [];
  retirement_holders = (record { identity_id = "i1"; values = "ops" ∷ [] }) ∷ [];
  unmatched_members = [];
  matched_identities = 1;
  members_without_identity = 0;
  would_remove_all = false;
}
