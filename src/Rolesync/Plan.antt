-- ===== src/Rolesync/Plan.antt =====
-- internal/rolesync/planner.go: the planner's input and result.
pub mod Reports
use miniziti_operator.Prelude.{ℕ, String, Bool, List, ◌∷◌, [], ◌++◌, ltb, length, if◌then◌else◌}
use miniziti_operator.Entra.{User}
use miniziti_operator.Openziti.{Identity}
use miniziti_operator.Rolesync.Ownership.{SyncClaim, IdentityOwner, OwnershipResult}
use miniziti_operator.Rolesync.Scope.{RoleScope}

pub record Input : Type 0 where
  pub scope : RoleScope
  pub members_by_group : List (String × List User)
  pub identities : List Identity
  pub identity_owners : List IdentityOwner
  pub self : SyncClaim
  pub other_claims : List SyncClaim
  pub user_property : String

pub record IdentityPatch : Type 0 where
  pub identity_id : String
  pub external_id : String
  pub granted_attributes : List String
  pub role_attributes : List String

pub record RetirementHolder : Type 0 where
  pub identity_id : String
  pub values : List String

pub record UnmatchedMember : Type 0 where
  pub id : String
  pub display_name : String
  pub external_id : String
  pub reason : String

pub record PlanResult : Type 0 where
  pub current_values : List String
  pub managed_values : List String
  pub ownership : OwnershipResult
  pub patches : List IdentityPatch
  pub retirement_holders : List RetirementHolder
  pub unmatched_members : List UnmatchedMember
  pub matched_identities : ℕ
  pub members_without_identity : ℕ
  pub would_remove_all : Bool

-- PlanResult.report
unfoldable pub report : PlanResult → UnmatchedMember → PlanResult
report p member =
    if ltb (length p.unmatched_members) 50
    then record p { unmatched_members = p.unmatched_members ++ member ∷ [] }
    else p
