-- ===== src/Rolesync/Planner/Merge.antt =====
-- MergeAttributes changes managed attributes only, and settles after one application.
use mathlib.Core.List.{append-nil}
use mathlib.Core.Path.{ap₂}
use miniziti_operator.Prelude.{
  String, ◌≡◌, ◌∙◌, sym, ap, true, false, not, ◌&&◌, ◌||◌, List, [], ◌∷◌, ◌++◌, arith, refl, eq_iff,
  ◌==◌, Bool-cases, inl, inr, ◌↔◌, All,
}
use miniziti_operator.Strings.{contains}
use miniziti_operator.Strings.Sets.{contains-append, All-of_contains}
use miniziti_operator.Rolesync.Ownership.{sorted_set}
use miniziti_operator.Rolesync.Ownership.SortedSet.{contains-sorted_set_one}
use miniziti_operator.Rolesync.Planner.{without, within, merge_attributes, overlaps}

pub contains-without :
    (values managed : List String) (v : String)
    → contains (without values managed) v ≡ (contains values v && not (contains managed v))
unfolding without contains
contains-without [] managed v = refl
contains-without (x ∷ values) managed v = elim (Bool-cases (x == v)) [
  | inl e ↦
      rw ((eq_iff x v).0 e) (ground (arith, (eq_iff v v).1 refl, contains-without values managed v))
  | inr n ↦ ground (arith, n, contains-without values managed v)
]

pub contains-within :
    (values held : List String) (v : String)
    → contains (within values held) v ≡ (contains values v && contains held v)
unfolding within contains
contains-within [] held v = refl
contains-within (x ∷ values) held v = elim (Bool-cases (x == v)) [
  | inl e ↦
      rw ((eq_iff x v).0 e) (ground (arith, (eq_iff v v).1 refl, contains-within values held v))
  | inr n ↦ ground (arith, n, contains-within values held v)
]

-- After a merge an attribute is held exactly if it was granted, or was held and is not managed.
pub contains-merge_attributes :
    (current managed granted : List String) (v : String)
    → contains (merge_attributes current managed granted) v
      ≡ ((contains current v && not (contains managed v)) || contains granted v)
unfolding merge_attributes
contains-merge_attributes current managed granted v = ground (
  arith,
  contains-append (without current managed) (sorted_set (granted ∷ [])) v,
  contains-without current managed v,
  contains-sorted_set_one granted v,
)

abbrev pub Within : List String → List String → Type 0
Within xs ys = (v : String) → contains xs v ≡ true → contains ys v ≡ true

without-append :
    (xs ys managed : List String)
    → without (xs ++ ys) managed ≡ without xs managed ++ without ys managed
unfolding without
without-append [] ys managed = refl
without-append (x ∷ xs) ys managed = ground (arith, without-append xs ys managed)

without-without :
    (xs managed : List String) → without (without xs managed) managed ≡ without xs managed
unfolding without
without-without [] managed = refl
without-without (x ∷ xs) managed = ground (arith, without-without xs managed)

without-All :
    (xs managed : List String) → All (λ x. contains managed x ≡ true) xs → without xs managed ≡ []
unfolding without
without-All [] managed h = refl
without-All (x ∷ xs) managed h = ground (arith, without-All xs managed h.1)

-- Merging again, with grants that are all managed, changes nothing: the second run over an identity
-- that was patched finds it as it should be.
pub merge_attributes_idem :
    (current managed granted : List String)
    → Within granted managed
    → merge_attributes (merge_attributes current managed granted) managed granted
      ≡ merge_attributes current managed granted
unfolding merge_attributes
merge_attributes_idem current managed granted h =
    let sorted = sorted_set (granted ∷ []) in
    let all_managed =
      without-All sorted managed
        (All-of_contains _ sorted (λ v m. h v (sym (contains-sorted_set_one granted v) ∙ m))) in
    ap (λ l. l ++ sorted)
      (without-append (without current managed) sorted managed
        ∙ ap₂ ◌++◌ (without-without current managed) all_managed
        ∙ append-nil (without current managed))

-- The lists overlap exactly if some value of the first is in the second.
pub overlaps-false :
    (values managed : List String)
    → (overlaps values managed ≡ false)
      ↔ ((v : String) → (contains values v && contains managed v) ≡ false)
unfolding overlaps contains
overlaps-false [] managed = (λ e v. refl, λ h. refl)
overlaps-false (x ∷ values) managed =
    let (there, back) = overlaps-false values managed in
    (
      λ e v. elim (Bool-cases (x == v)) [
        | inl s ↦ rw (← (eq_iff x v).0 s) (ground arith)
        | inr n ↦ ground (arith, n, there (ground arith) v)
      ],
      λ h. ground (arith, h x, (eq_iff x x).1 refl, back (λ v. ground (arith, h v))),
    )
