-- ===== src/Rolesync/Ownership.antt =====
-- internal/rolesync/ownership.go: the claims of role syncs on attribute values, and who wins.
-- A Go map is an association list; `time.Time` is its instant, counted in nanoseconds.
pub mod SortedSet
pub mod Winner
pub mod Exclusion
use miniziti_operator.Prelude.{
  ℕ, String, Bool, true, false, not, ◌&&◌, Option, none, some, List, [], ◌∷◌, ltb, eqb, ◌==◌,
  if◌then◌else◌,
}
use miniziti_operator.Strings.{contains, sort, str_ltb}

pub record ResourceKey : Type 0 where
  pub namespace : String
  pub name : String

pub record SyncClaim : Type 0 where
  pub resource : ResourceKey
  pub creation_timestamp : ℕ
  pub managed_attributes : List String

pub record IdentityOwner : Type 0 where
  pub resource : ResourceKey
  pub identity_id : String
  pub identity_name : String

pub record OwnershipInput : Type 0 where
  pub self : SyncClaim
  pub candidates : List String
  pub others : List SyncClaim

pub record OwnershipResult : Type 0 where
  pub owners : List (String × ResourceKey)
  pub conflicts : List String

-- `==` on ResourceKey
abbrev pub same_key : ResourceKey → ResourceKey → Bool
same_key a b = a.namespace == b.namespace && a.name == b.name

-- set[value] = true
set_add : List String → String → List String
set_add set value = if contains set value then set else value ∷ set

add_all : List String → List String → List String
unfolding set_add
add_all set [] = set
add_all set (value ∷ list) = add_all (set_add set value) list

add_lists : List String → List (List String) → List String
unfolding add_all
add_lists set [] = set
add_lists set (list ∷ values) = add_lists (add_all set list) values

-- The keys of the set, sorted; the order in which Go lists a map's keys does not matter.
unfoldable pub sorted_set : List (List String) → List String
unfolding add_lists sort contains
sorted_set values = sort (add_lists [] values)

unfoldable pub claim_before : SyncClaim → SyncClaim → Bool
claim_before a b =
    if not (eqb a.creation_timestamp b.creation_timestamp)
    then ltb a.creation_timestamp b.creation_timestamp
    else if not (a.resource.namespace == b.resource.namespace)
    then str_ltb a.resource.namespace b.resource.namespace
    else str_ltb a.resource.name b.resource.name

better : Option SyncClaim → SyncClaim → Option SyncClaim
better none claim = some claim
better (some winner) claim = if claim_before claim winner then some claim else some winner

-- The inner loop of ResolveOwnership.
pub winner_from : String → Option SyncClaim → List SyncClaim → Option SyncClaim
unfolding better
winner_from value winner [] = winner
winner_from value winner (claim ∷ claims) =
    winner_from value
      (if contains claim.managed_attributes value then better winner claim else winner) claims

owner_or_self : ResourceKey → Option SyncClaim → ResourceKey
owner_or_self self none = self
owner_or_self self (some winner) = winner.resource

unfoldable pub owner_of : SyncClaim → List SyncClaim → String → ResourceKey
unfolding winner_from owner_or_self
owner_of self others value = owner_or_self self.resource (winner_from value none (self ∷ others))

-- The outer loop of ResolveOwnership.
resolve_values : SyncClaim → List SyncClaim → List String → OwnershipResult
resolve_values self others [] = record { owners = []; conflicts = [] }
resolve_values self others (value ∷ values) =
    let rest = resolve_values self others values in
    let owner = owner_of self others value in
    record {
      owners = (value, owner) ∷ rest.owners;
      conflicts = if same_key owner self.resource then rest.conflicts else value ∷ rest.conflicts;
    }

unfoldable pub resolve_ownership : OwnershipInput → OwnershipResult
unfolding resolve_values
resolve_ownership input =
    resolve_values input.self input.others (sorted_set (input.candidates ∷ []))
