-- ===== src/Strings/Compact.antt =====
-- `slices.Sort` then `slices.Compact` gives the ascending list of a list's members.
use miniziti_operator.Prelude.{
  String, ◌≡◌, ◌∙◌, true, false, List, [], ◌∷◌, arith, refl, ◌==◌, eq_iff, Bool-cases, inl, inr,
  All, All-map,
}
use miniziti_operator.Strings.{str_ltb, contains, sort, insert_sorted, compact}
use miniziti_operator.Strings.Order.{str_ltb_trans, str_ltb_antisymm, str_ltb_asymm}
use miniziti_operator.Strings.Sets.{
  SameMembers, Above, Ascending, Sorted, contains-sort, All-of_contains, All-contains,
}

abbrev NotBelow : String → List String → Type 0
NotBelow x = All (λ y. str_ltb y x ≡ false)

not_below_trans : (x y z : String) → str_ltb y x ≡ false → str_ltb z y ≡ false → str_ltb z x ≡ false
not_below_trans x y z h k = elim (Bool-cases (str_ltb z x)) [
  | inl e ↦ elim (Bool-cases (str_ltb x y)) [
    | inl f ↦ cc (str_ltb_trans z x y e f)
    | inr n ↦ ground (arith, str_ltb_antisymm x y n h)
  ]
  | inr n ↦ n
]

NotBelow-insert_sorted :
    (z x : String) (ys : List String)
    → str_ltb x z ≡ false
    → NotBelow z ys
    → NotBelow z (insert_sorted x ys)
unfolding insert_sorted
NotBelow-insert_sorted z x [] h a = (h, tt)
NotBelow-insert_sorted z x (y ∷ ys) h a = elim (Bool-cases (str_ltb y x)) [
  | inl e ↦ rw e (a.0, NotBelow-insert_sorted z x ys h a.1)
  | inr n ↦ rw n (h, a)
]

insert_sorted-Sorted : (x : String) (ys : List String) → Sorted ys → Sorted (insert_sorted x ys)
unfolding insert_sorted
insert_sorted-Sorted x [] a = (tt, tt)
insert_sorted-Sorted x (y ∷ ys) a = elim (Bool-cases (str_ltb y x)) [
  | inl e ↦
      rw e (NotBelow-insert_sorted y x ys (str_ltb_asymm y x e) a.0, insert_sorted-Sorted x ys a.1)
  | inr n ↦ rw n ((n, All-map _ _ ys (λ z k. not_below_trans x y z n k) a.0), a)
]

pub sort-Sorted : (xs : List String) → Sorted (sort xs)
unfolding sort
sort-Sorted [] = tt
sort-Sorted (x ∷ xs) = insert_sorted-Sorted x (sort xs) (sort-Sorted xs)

pub contains-compact : (xs : List String) → SameMembers (compact xs) xs
unfolding contains compact
contains-compact [] v = refl
contains-compact (x ∷ []) v = refl
contains-compact (x ∷ y ∷ r) v = ground (arith, eq_iff x y, contains-compact (y ∷ r) v)

-- In front of a sorted list, what differs from its head is below all of it.
Above-of_NotBelow :
    (x y : String) (ys : List String)
    → (x == y) ≡ false
    → NotBelow x (y ∷ ys)
    → NotBelow y ys
    → Above x (y ∷ ys)
Above-of_NotBelow x y ys ne h k =
    let first : str_ltb x y ≡ true = ground (arith, eq_iff x y, str_ltb_antisymm x y) in
    (first, All-map _ _ ys (λ z m. above z m first) k)
  where
    above : (z : String) → str_ltb z y ≡ false → str_ltb x y ≡ true → str_ltb x z ≡ true
    above z m f = elim (Bool-cases (str_ltb x z)) [
      | inl e ↦ e
      | inr n ↦ elim (Bool-cases (str_ltb y z)) [
        | inl g ↦ cc (str_ltb_trans x y z f g)
        | inr o ↦ ground (arith, str_ltb_antisymm y z o m)
      ]
    ]

Above-compact : (x : String) (xs : List String) → Above x xs → Above x (compact xs)
Above-compact x xs h =
    All-of_contains _ (compact xs)
      (λ v m. All-contains (λ y. str_ltb x y ≡ true) xs v h (ground (arith, contains-compact xs v)))

compact-Ascending : (xs : List String) → Sorted xs → Ascending (compact xs)
unfolding compact
compact-Ascending [] h = tt
compact-Ascending (x ∷ []) h = (tt, tt)
compact-Ascending (x ∷ y ∷ r) h = elim (Bool-cases (x == y)) [
  | inl e ↦ rw e (compact-Ascending (y ∷ r) h.1)
  | inr n ↦
      rw n (
        Above-compact x (y ∷ r) (Above-of_NotBelow x y r n h.0 h.1.0),
        compact-Ascending (y ∷ r) h.1,
      )
]

pub compact-sort-Ascending : (xs : List String) → Ascending (compact (sort xs))
compact-sort-Ascending xs = compact-Ascending (sort xs) (sort-Sorted xs)

pub contains-compact-sort : (xs : List String) → SameMembers (compact (sort xs)) xs
contains-compact-sort xs v = contains-compact (sort xs) v ∙ contains-sort xs v
