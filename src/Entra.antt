-- ===== src/Entra.antt =====
-- internal/entra/directory.go: the snapshots that a directory supplies.
pub mod Wire
pub mod Pages
use miniziti_operator.Prelude.{String, Bool, List}

pub record AppRole : Type 0 where
  pub id : String
  pub value : String
  pub allowed_member_types : List String
  pub is_enabled : Bool

pub record ServicePrincipal : Type 0 where
  pub id : String
  pub app_roles : List AppRole

pub record AppRoleAssignment : Type 0 where
  pub principal_id : String
  pub principal_type : String
  pub app_role_id : String

pub record User : Type 0 where
  pub id : String
  pub display_name : String
  pub mail : String
  pub user_principal_name : String
