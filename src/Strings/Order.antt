-- ===== src/Strings/Order.antt =====
-- `<` on texts is a strict total order.
use Prim.Native.Char.{code}
use text.Mathlib.TextEquality.{Char-path}
use miniziti_operator.Prelude.{String, ◌≡◌, true, false, arith, refl}
use miniziti_operator.Strings.{str_ltb}

pub str_ltb_irrefl : (s : String) → str_ltb s s ≡ false
unfolding str_ltb
str_ltb_irrefl String.[] = refl
str_ltb_irrefl (String.◌∷◌ c s) = ground (arith, str_ltb_irrefl s)

pub str_ltb_trans : (s t u : String) → str_ltb s t ≡ true → str_ltb t u ≡ true → str_ltb s u ≡ true
unfolding str_ltb
str_ltb_trans String.[] String.[] u h k = cc
str_ltb_trans String.[] (String.◌∷◌ d t) String.[] h k = cc
str_ltb_trans String.[] (String.◌∷◌ d t) (String.◌∷◌ e u) h k = refl
str_ltb_trans (String.◌∷◌ c s) String.[] u h k = cc
str_ltb_trans (String.◌∷◌ c s) (String.◌∷◌ d t) String.[] h k = cc
str_ltb_trans (String.◌∷◌ c s) (String.◌∷◌ d t) (String.◌∷◌ e u) h k =
    ground (arith, str_ltb_trans s t u)

pub str_ltb_asymm : (s t : String) → str_ltb s t ≡ true → str_ltb t s ≡ false
str_ltb_asymm s t h = ground (arith, str_ltb_trans s t s, str_ltb_irrefl s)

-- Texts of which neither is smaller are equal.
pub str_ltb_antisymm : (s t : String) → str_ltb s t ≡ false → str_ltb t s ≡ false → s ≡ t
unfolding str_ltb
str_ltb_antisymm String.[] String.[] h k = refl
str_ltb_antisymm String.[] (String.◌∷◌ d t) h k = cc
str_ltb_antisymm (String.◌∷◌ c s) String.[] h k = cc
str_ltb_antisymm (String.◌∷◌ c s) (String.◌∷◌ d t) h k =
    let heads : code c ≡ code d = ground arith in
    let tails : str_ltb s t ≡ false = ground arith in
    let tails' : str_ltb t s ≡ false = ground arith in
    let same = str_ltb_antisymm s t tails tails' in λ i. String.◌∷◌ (Char-path c d heads i) (same i)
