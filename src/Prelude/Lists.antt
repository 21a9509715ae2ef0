-- ===== src/Prelude/Lists.antt =====
-- Lists measured by native numbers, and predicates on lists by recursion.
use Prim.Native.Nat.{ℕ, zero, suc, ◌+◌, ◌<◌, ◌≤◌}
use mathlib.Core.Path.{◌≡◌, refl, sym, ap, subst, ◌∙◌}
use mathlib.Core.List.{List, [], ◌∷◌, ◌++◌, Memᴰ}
use native.Mathlib.Omega.{arith}

module _ {ℓ} {A : Type ℓ} where
  abbrev pub length : List A → ℕ
  length [] = 0
  length (x ∷ xs) = suc (length xs)

  pub length-append : (xs ys : List A) → length (xs ++ ys) ≡ length xs + length ys
  length-append [] ys = omega arith
  length-append (x ∷ xs) ys = omega (arith, length-append xs ys)

  -- Every member of the list satisfies `P`.
  abbrev pub All {κ} : (A → Type κ) → List A → Type κ
  All P [] = Unit
  All P (x ∷ xs) = P x × All P xs

  pub All-append {κ} : (P : A → Type κ) (xs ys : List A) → All P xs → All P ys → All P (xs ++ ys)
  All-append P [] ys hx hy = hy
  All-append P (x ∷ xs) ys hx hy = (hx.0, All-append P xs ys hx.1 hy)

  pub All-map {κ ι} :
      (P : A → Type κ) (Q : A → Type ι) (xs : List A) → ((x : A) → P x → Q x) → All P xs → All Q xs
  All-map P Q [] f h = tt
  All-map P Q (x ∷ xs) f h = (f x h.0, All-map P Q xs f h.1)

module _ {ℓ} {A : Type ℓ} where
  pub Memᴰ-append_left : {a : A} (xs ys : List A) → Memᴰ a xs → Memᴰ a (xs ++ ys)
  Memᴰ-append_left [] ys m = elim m [ ]
  Memᴰ-append_left (x ∷ xs) ys (Memᴰ.head e) = Memᴰ.head e
  Memᴰ-append_left (x ∷ xs) ys (Memᴰ.tail m) = Memᴰ.tail (Memᴰ-append_left xs ys m)

  pub Memᴰ-append_last : (a : A) (xs : List A) → Memᴰ a (xs ++ a ∷ [])
  Memᴰ-append_last a [] = Memᴰ.head refl
  Memᴰ-append_last a (x ∷ xs) = Memᴰ.tail (Memᴰ-append_last a xs)

  pub All-Memᴰ {κ} : (P : A → Type κ) {a : A} (xs : List A) → All P xs → Memᴰ a xs → P a
  All-Memᴰ P [] h m = elim m [ ]
  All-Memᴰ P (x ∷ xs) h (Memᴰ.head e) = subst P (sym e) h.0
  All-Memᴰ P (x ∷ xs) h (Memᴰ.tail m) = All-Memᴰ P xs h.1 m

module _ {ℓ} {A : Type ℓ} where
  unfoldable pub take : ℕ → List A → List A
  take zero xs = []
  take (suc n) [] = []
  take (suc n) (x ∷ xs) = x ∷ take n xs

  unfoldable pub drop : ℕ → List A → List A
  drop zero xs = xs
  drop (suc n) [] = []
  drop (suc n) (x ∷ xs) = drop n xs

  pub drop-zero : (xs : List A) → drop 0 xs ≡ xs
  unfolding drop
  drop-zero xs = refl

  pub take-append-drop : (n : ℕ) (xs : List A) → take n xs ++ drop n xs ≡ xs
  unfolding take drop
  take-append-drop zero xs = refl
  take-append-drop (suc n) [] = refl
  take-append-drop (suc n) (x ∷ xs) = ap (λ l. x ∷ l) (take-append-drop n xs)

  -- A part that is not full is the whole list.
  pub take_of_short : (n : ℕ) (xs : List A) → length (take n xs) < n → take n xs ≡ xs
  unfolding take
  take_of_short zero xs h = absurd (omega (h, arith))
  take_of_short (suc n) [] h = refl
  take_of_short (suc n) (x ∷ xs) h = ap (λ l. x ∷ l) (take_of_short n xs (omega (h, arith)))

  pub length-take-le : (n : ℕ) (xs : List A) → length (take n xs) ≤ n
  unfolding take
  length-take-le zero xs = omega arith
  length-take-le (suc n) [] = omega arith
  length-take-le (suc n) (x ∷ xs) = omega (arith, length-take-le n xs)

  -- Behind a full part the list is shorter by it.
  pub length-drop_of_full :
      (n : ℕ) (xs : List A) → length (take n xs) ≡ n → length (drop n xs) + n ≡ length xs
  unfolding take drop
  length-drop_of_full zero xs h = omega arith
  length-drop_of_full (suc n) [] h = omega (h, arith)
  length-drop_of_full (suc n) (x ∷ xs) h =
      omega (arith, length-drop_of_full n xs (omega (h, arith)))

  drop-nil : (n : ℕ) → Path (List A) (drop n []) []
  unfolding drop
  drop-nil zero = refl
  drop-nil (suc n) = refl

  pub drop-drop : (m n : ℕ) (xs : List A) → drop n (drop m xs) ≡ drop (m + n) xs
  unfolding drop
  drop-drop zero n xs = let same : n ≡ 0 + n = omega arith in ap (λ k. drop k xs) same
  drop-drop (suc m) n [] =
      let same : suc (m + n) ≡ suc m + n = omega arith in drop-nil n ∙ ap (λ k. drop k []) same
  drop-drop (suc m) n (x ∷ xs) =
      let same : suc (m + n) ≡ suc m + n = omega arith in
      drop-drop m n xs ∙ ap (λ k. drop k (x ∷ xs)) same
