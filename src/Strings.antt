-- ===== src/Strings.antt =====
-- What the program uses of Go's `strings` and `slices`: comparison, case folding, trimming,
-- membership, sorting and compaction. A text is a sequence of code points; UTF-8 keeps their
-- order, so Go's bytewise `<` is the lexicographic order of the code points.
pub mod Order
pub mod Sets
pub mod Compact
use Prim.Native.Char.{Char, char, code, IsScalar}
use Prim.Native.Nat.{compare, Ordering}
use native.Mathlib.Decide.{dec_lt}
use mathlib.Core.Logic.{dite}
use miniziti_operator.Prelude.{
  ℕ, ◌+◌, ◌<◌, ◌≡◌, String, Bool, true, false, ◌||◌, ◌&&◌, List, [], ◌∷◌, ltb, leb, eqb, ◌==◌,
  if◌then◌else◌, arith, lt→ltb,
}

-- a < b
unfoldable pub str_ltb : String → String → Bool
str_ltb String.[] String.[] = false
str_ltb String.[] (String.◌∷◌ d t) = true
str_ltb (String.◌∷◌ c s) String.[] = false
str_ltb (String.◌∷◌ c s) (String.◌∷◌ d t) =
    let rest = str_ltb s t in ltb (code c) (code d) || (eqb (code c) (code d) && rest)

-- The Unicode tables of package `unicode` beyond ASCII, which the model takes as a parameter:
-- the lower case of a code point, and whether two code points fold together.
pub record CaseTables : Type 0 where
  pub lower : Char → Char
  pub same_orbit : Char → Char → Bool

abbrev is_upper_ascii : ℕ → Bool
is_upper_ascii n = leb 65 n && leb n 90

abbrev ascii_lower : ℕ → ℕ
ascii_lower n = if is_upper_ascii n then n + 32 else n

-- Code points below the surrogates are scalar values.
scalar_below : (n : ℕ) → n < 55296 → IsScalar n
scalar_below n h = rw (lt-compare n 55296 h) tt
  where
    lt-compare : (a b : ℕ) → a < b → compare a b ≡ Ordering.lt
    lt-compare a b h = ground arith

lower_char : CaseTables → Char → Char
unfolding dec_lt scalar_below
lower_char u c =
    dite (dec_lt (code c) 128)
      (λ h. char (ascii_lower (code c)) (scalar_below (ascii_lower (code c)) (ground arith)))
      (λ _. u.lower c)

-- strings.ToLower
unfoldable pub to_lower : CaseTables → String → String
unfolding lower_char
to_lower u String.[] = String.[]
to_lower u (String.◌∷◌ c s) = String.◌∷◌ (lower_char u c) (to_lower u s)

-- One step of strings.EqualFold: equal, the two cases of an ASCII letter, or the same orbit.
fold_char : CaseTables → Char → Char → Bool
fold_char u c d =
    if eqb (code c) (code d)
    then true
    else if ltb (code c) 128 && ltb (code d) 128
    then eqb (ascii_lower (code c)) (ascii_lower (code d))
    else u.same_orbit c d

-- strings.EqualFold
unfoldable pub equal_fold : CaseTables → String → String → Bool
unfolding fold_char
equal_fold u String.[] String.[] = true
equal_fold u String.[] (String.◌∷◌ d t) = false
equal_fold u (String.◌∷◌ c s) String.[] = false
equal_fold u (String.◌∷◌ c s) (String.◌∷◌ d t) =
    let rest = equal_fold u s t in fold_char u c d && rest

-- unicode.IsSpace
is_space : Char → Bool
is_space ch =
    let c = code ch in
    (leb 9 c && leb c 13)
    || (eqb c 32
        || (eqb c 0x85
            || (eqb c 0xA0
                || (eqb c 0x1680
                    || ((leb 0x2000 c && leb c 0x200a)
                        || (eqb c 0x2028
                            || (eqb c 0x2029
                                || (eqb c 0x202f || (eqb c 0x205f || eqb c 0x3000)))))))))

trim_left : String → String
trim_left String.[] = String.[]
trim_left (String.◌∷◌ c s) = let rest = trim_left s in if is_space c then rest else String.◌∷◌ c s

-- A blank is kept only in front of something that is kept.
trim_right : String → String
trim_right String.[] = String.[]
trim_right (String.◌∷◌ c s) =
    let rest = trim_right s in if is_space c && rest == "" then "" else String.◌∷◌ c rest

-- strings.TrimSpace
unfoldable pub trim_space : String → String
unfolding is_space trim_left trim_right
trim_space s = trim_right (trim_left s)

-- slices.Contains
unfoldable pub contains : List String → String → Bool
contains [] v = false
contains (x ∷ xs) v = x == v || contains xs v

insert_sorted : String → List String → List String
insert_sorted x [] = x ∷ []
insert_sorted x (y ∷ ys) = if str_ltb y x then y ∷ insert_sorted x ys else x ∷ y ∷ ys

-- slices.Sort; equal texts cannot be told apart, so every sort gives this list.
unfoldable pub sort : List String → List String
unfolding insert_sorted str_ltb
sort [] = []
sort (x ∷ xs) = insert_sorted x (sort xs)

-- slices.Compact
unfoldable pub compact : List String → List String
compact [] = []
compact (x ∷ []) = x ∷ []
compact (x ∷ y ∷ r) = let rest = compact (y ∷ r) in if x == y then rest else x ∷ rest

-- slices.Equal
unfoldable pub slices_equal : List String → List String → Bool
slices_equal [] [] = true
slices_equal [] (y ∷ ys) = false
slices_equal (x ∷ xs) [] = false
slices_equal (x ∷ xs) (y ∷ ys) = x == y && slices_equal xs ys
