-- ===== src/Strings/Sets.antt =====
-- Membership in lists of texts, and the strictly ascending lists that stand for sets.
use mathlib.Core.Path.{subst}
use miniziti_operator.Prelude.{
  String, ◌≡◌, ap, sym, ◌∙◌, true, false, ◌||◌, List, [], ◌∷◌, ◌++◌, arith, refl, ◌==◌, eq_iff,
  Bool-cases, inl, inr, All, All-map,
}
use miniziti_operator.Strings.{str_ltb, contains, sort, insert_sorted}
use miniziti_operator.Strings.Order.{str_ltb_irrefl, str_ltb_trans, str_ltb_antisymm, str_ltb_asymm}

-- Two lists have the same members.
abbrev pub SameMembers : List String → List String → Type 0
SameMembers xs ys = (v : String) → contains xs v ≡ contains ys v

-- No member twice.
abbrev pub Distinct : List String → Type 0
Distinct [] = Unit
Distinct (x ∷ xs) = (contains xs x ≡ false) × Distinct xs

abbrev pub Above : String → List String → Type 0
Above x = All (λ y. str_ltb x y ≡ true)

-- Strictly ascending: sorted, and no member twice.
abbrev pub Ascending : List String → Type 0
Ascending [] = Unit
Ascending (x ∷ xs) = Above x xs × Ascending xs

-- Sorted, repetitions allowed.
abbrev pub Sorted : List String → Type 0
Sorted [] = Unit
Sorted (x ∷ xs) = All (λ y. str_ltb y x ≡ false) xs × Sorted xs

pub contains-append :
    (xs ys : List String) (v : String) → contains (xs ++ ys) v ≡ (contains xs v || contains ys v)
unfolding contains
contains-append [] ys v = refl
contains-append (x ∷ xs) ys v = ground (arith, contains-append xs ys v)

contains-insert_sorted :
    (x : String) (ys : List String) (v : String)
    → contains (insert_sorted x ys) v ≡ (x == v || contains ys v)
unfolding contains insert_sorted
contains-insert_sorted x [] v = refl
contains-insert_sorted x (y ∷ ys) v = ground (arith, contains-insert_sorted x ys v)

pub contains-sort : (xs : List String) → SameMembers (sort xs) xs
unfolding contains sort
contains-sort [] v = refl
contains-sort (x ∷ xs) v = ground (arith, contains-insert_sorted x (sort xs) v, contains-sort xs v)

-- A member of a list satisfies what all its members satisfy.
pub All-contains :
    (P : String → Type 0) (xs : List String) (v : String) → All P xs → contains xs v ≡ true → P v
unfolding contains
All-contains P [] v h m = cc
All-contains P (x ∷ xs) v h m = elim (Bool-cases (x == v)) [
  | inl e ↦ rw (← (eq_iff x v).0 e) h.0
  | inr n ↦ All-contains P xs v h.1 (ground arith)
]

pub All-of_contains :
    (P : String → Type 0) (xs : List String)
    → ((v : String) → contains xs v ≡ true → P v)
    → All P xs
unfolding contains
All-of_contains P [] f = tt
All-of_contains P (x ∷ xs) f =
    (f x (ground (arith, eq_iff x x)), All-of_contains P xs (λ v m. f v (ground arith)))

Above-ne : (x : String) (ys : List String) → Above x ys → contains ys x ≡ false
Above-ne x ys h = elim (Bool-cases (contains ys x)) [
  | inl m ↦ cc (All-contains (λ y. str_ltb x y ≡ true) ys x h m, str_ltb_irrefl x)
  | inr n ↦ n
]

Above-trans : (x y : String) (ys : List String) → str_ltb x y ≡ true → Above y ys → Above x ys
Above-trans x y ys h a = All-map _ _ ys (λ z k. str_ltb_trans x y z h k) a

Above-insert_sorted :
    (z x : String) (ys : List String)
    → str_ltb z x ≡ true
    → Above z ys
    → Above z (insert_sorted x ys)
unfolding insert_sorted
Above-insert_sorted z x [] h a = (h, tt)
Above-insert_sorted z x (y ∷ ys) h a = elim (Bool-cases (str_ltb y x)) [
  | inl e ↦ rw e (a.0, Above-insert_sorted z x ys h a.1)
  | inr n ↦ rw n (h, a)
]

-- A new member goes to its place.
insert_sorted-Ascending :
    (x : String) (ys : List String)
    → contains ys x ≡ false
    → Ascending ys
    → Ascending (insert_sorted x ys)
unfolding insert_sorted contains
insert_sorted-Ascending x [] h a = (tt, tt)
insert_sorted-Ascending x (y ∷ ys) h a = elim (Bool-cases (str_ltb y x)) [
  | inl e ↦ rw e (Above-insert_sorted y x ys e a.0, insert_sorted-Ascending x ys (ground arith) a.1)
  | inr n ↦
      let below : str_ltb x y ≡ true = ground (arith, eq_iff y x, str_ltb_antisymm y x) in
      rw n ((below, Above-trans x y ys below a.0), a)
]

pub sort-Ascending : (xs : List String) → Distinct xs → Ascending (sort xs)
unfolding sort
sort-Ascending [] d = tt
sort-Ascending (x ∷ xs) d =
    insert_sorted-Ascending x (sort xs) (contains-sort xs x ∙ d.0) (sort-Ascending xs d.1)

heads_agree :
    (x y : String) (xs ys : List String)
    → Above x xs
    → Above y ys
    → SameMembers (x ∷ xs) (y ∷ ys)
    → x ≡ y
unfolding contains
heads_agree x y xs ys a b h = elim (Bool-cases (x == y)) [
  | inl e ↦ (eq_iff x y).0 e
  | inr n ↦
      let in_ys : contains ys x ≡ true = ground (arith, h x, eq_iff x x, eq_iff y x, eq_iff x y) in
      let in_xs : contains xs y ≡ true = ground (arith, h y, eq_iff y y, eq_iff x y) in
      cc (
        All-contains (λ z. str_ltb y z ≡ true) ys x b in_ys,
        str_ltb_asymm x y (All-contains (λ z. str_ltb x z ≡ true) xs y a in_xs),
      )
]

tails_agree :
    (x : String) (xs ys : List String)
    → Above x xs
    → Above x ys
    → SameMembers (x ∷ xs) (x ∷ ys)
    → SameMembers xs ys
unfolding contains
tails_agree x xs ys a b h v =
    ground
      (arith, h v, eq_iff x v, ap (contains xs), ap (contains ys), Above-ne x xs a, Above-ne x ys b)

-- Strictly ascending lists with the same members are equal: such a list is a set's normal form.
pub Ascending-ext :
    (xs ys : List String) → Ascending xs → Ascending ys → SameMembers xs ys → xs ≡ ys
unfolding contains
Ascending-ext [] [] a b h = refl
Ascending-ext [] (y ∷ ys) a b h = cc (h y, (eq_iff y y).1 refl)
Ascending-ext (x ∷ xs) [] a b h = cc (h x, (eq_iff x x).1 refl)
Ascending-ext (x ∷ xs) (y ∷ ys) a b h =
    let heads = heads_agree x y xs ys a.0 b.0 h in
    let above : Above x ys = rw heads b.0 in
    let same = subst (λ z. SameMembers (x ∷ xs) (z ∷ ys)) (sym heads) h in
    let tails = Ascending-ext xs ys a.1 b.1 (tails_agree x xs ys a.0 above same) in
    λ i. heads i ∷ tails i
