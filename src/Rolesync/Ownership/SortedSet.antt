-- ===== src/Rolesync/Ownership/SortedSet.antt =====
-- `sortedSet` returns the strictly ascending list of the members of its arguments.
use miniziti_operator.Prelude.{
  String, ◌≡◌, ◌∙◌, Bool, false, ◌||◌, List, [], ◌∷◌, arith, eq_iff, Bool-cases, inl, inr, ◌↔◌,
}
use miniziti_operator.Strings.{contains}
use miniziti_operator.Strings.Sets.{
  SameMembers, Distinct, Ascending, contains-sort, sort-Ascending, Ascending-ext,
}
use miniziti_operator.Rolesync.Ownership.{set_add, add_all, add_lists, sorted_set}

-- The value is in one of the lists.
abbrev pub in_any : List (List String) → String → Bool
in_any [] v = false
in_any (l ∷ ls) v = contains l v || in_any ls v

contains-add_all :
    (set list : List String) (v : String)
    → contains (add_all set list) v ≡ (contains set v || contains list v)
unfolding add_all contains
contains-add_all set [] v = ground arith
contains-add_all set (x ∷ list) v =
    ground (arith, contains-add_all (set_add set x) list v, eq_iff x v)

contains-add_lists :
    (set : List String) (ls : List (List String)) (v : String)
    → contains (add_lists set ls) v ≡ (contains set v || in_any ls v)
unfolding add_lists
contains-add_lists set [] v = ground arith
contains-add_lists set (l ∷ ls) v =
    ground (arith, contains-add_lists (add_all set l) ls v, contains-add_all set l v)

set_add-Distinct : (set : List String) (x : String) → Distinct set → Distinct (set_add set x)
unfolding set_add
set_add-Distinct set x d = elim (Bool-cases (contains set x)) [
  | inl e ↦ rw e d
  | inr n ↦ rw n (n, d)
]

add_all-Distinct : (set list : List String) → Distinct set → Distinct (add_all set list)
unfolding add_all
add_all-Distinct set [] d = d
add_all-Distinct set (x ∷ list) d = add_all-Distinct (set_add set x) list (set_add-Distinct set x d)

add_lists-Distinct :
    (set : List String) (ls : List (List String)) → Distinct set → Distinct (add_lists set ls)
unfolding add_lists
add_lists-Distinct set [] d = d
add_lists-Distinct set (l ∷ ls) d = add_lists-Distinct (add_all set l) ls (add_all-Distinct set l d)

pub contains-sorted_set :
    (ls : List (List String)) (v : String) → contains (sorted_set ls) v ≡ in_any ls v
unfolding sorted_set contains
contains-sorted_set ls v = contains-sort (add_lists [] ls) v ∙ contains-add_lists [] ls v

pub sorted_set-Ascending : (ls : List (List String)) → Ascending (sorted_set ls)
unfolding sorted_set
sorted_set-Ascending ls = sort-Ascending (add_lists [] ls) (add_lists-Distinct [] ls tt)

pub contains-sorted_set_one : (l : List String) → SameMembers (sorted_set (l ∷ [])) l
contains-sorted_set_one l v = ground (arith, contains-sorted_set (l ∷ []) v)

pub contains-sorted_set_two :
    (a b : List String) (v : String)
    → contains (sorted_set (a ∷ b ∷ [])) v ≡ (contains a v || contains b v)
contains-sorted_set_two a b v = ground (arith, contains-sorted_set (a ∷ b ∷ []) v)

-- sortedSet is the set of all the values: its result is strictly ascending, a value is in it
-- exactly when it is in one of the lists, and it is the only such list, so the order in which Go
-- lists the keys of the intermediate map cannot show.
pub sorted_set-canonical :
    (values : List (List String)) (result : List String)
    → (result ≡ sorted_set values)
      ↔ (Ascending result × ((v : String) → contains result v ≡ in_any values v))
sorted_set-canonical values result = (
  λ e. rw e (sorted_set-Ascending values, contains-sorted_set values),
  λ h.
      Ascending-ext result (sorted_set values) h.0 (sorted_set-Ascending values)
        (λ v. ground (arith, h.1 v, contains-sorted_set values v)),
)
