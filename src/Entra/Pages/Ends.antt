-- ===== src/Entra/Pages/Ends.antt =====
-- The loop of readPages ends.
use miniziti_operator.Prelude.{
  ℕ, zero, suc, ◌+◌, ◌≤◌, String, ◌≡◌, refl, true, false, not, ◌&&◌, ◌||◌, some, List, [], ◌∷◌,
  ◌++◌, ◌==◌, eq_iff, arith, All, length, Bool-cases, Option-cases, inl, inr, ◌⊎◌, if◌then◌else◌,
}
use miniziti_operator.Strings.{contains}
use miniziti_operator.Strings.Sets.{Distinct, All-contains}
use miniziti_operator.Errors.{Result, ok, err, text}
use miniziti_operator.Entra.Pages.{Page, read_page, read_pages}

-- The list without a text.
except : String → List String → List String
except x [] = []
except x (y ∷ ys) = let rest = except x ys in if x == y then rest else y ∷ rest

contains-except :
    (x : String) (ys : List String) (v : String)
    → contains (except x ys) v ≡ (not (x == v) && contains ys v)
unfolding contains except
contains-except x [] v = ground arith
contains-except x (y ∷ ys) v =
    ground (arith, contains-except x ys v, eq_iff x y, eq_iff x v, eq_iff y v)

length-except :
    (x : String) (ys : List String)
    → (length (except x ys) ≤ length ys)
      × ((contains ys x ≡ false) ⊎ (length (except x ys) + 1 ≤ length ys))
unfolding contains except
length-except x [] = (omega arith, inl refl)
length-except x (y ∷ ys) =
    let (short, less) = length-except x ys in
    elim (Bool-cases (x == y)) [
      | inl e ↦ rw e (omega arith, inr (omega arith))
      | inr n ↦ rw n (
        omega arith,
        elim less [
          | inl absent ↦ inl (ground (arith, n, absent, eq_iff x y, eq_iff y x))
          | inr shorter ↦ inr (omega arith)
        ],
      )
    ]

-- Distinct texts that are all in a list are no more than the list has.
Distinct-length :
    (xs ys : List String) → Distinct xs → All (λ x. contains ys x ≡ true) xs → length xs ≤ length ys
unfolding contains
Distinct-length [] ys d h = omega arith
Distinct-length (x ∷ xs) ys d h =
    let shorter : length (except x ys) + 1 ≤ length ys = elim (length-except x ys).1 [
      | inl absent ↦ absurd (ground (absent, h, arith))
      | inr less ↦ less
    ] in
    let rest = Distinct-length xs (except x ys) d.1 (kept xs d.0 h.1) in omega arith
  where
    kept :
        (zs : List String)
        → contains zs x ≡ false
        → All (λ z. contains ys z ≡ true) zs
        → All (λ z. contains (except x ys) z ≡ true) zs
    kept [] n k = tt
    kept (z ∷ zs) n k = (
      ground (arith, contains-except x ys z, n, k.0, eq_iff x z, eq_iff z x),
      kept zs (ground (arith, n)) k.1,
    )

module _ {T : Type 0} (fetch : String → Result (Page T)) (reach : List String) where
  -- The page that follows, if there is one, is in the list.
  abbrev pub Follows : Result (Page T) → Type 0
  Follows (err e) = Unit
  Follows (ok page) = (page.next == "" || contains reach page.next) ≡ true

  -- The loop ends, for an endpoint of the list or none, with enough fuel for those not seen yet.
  Ends : ℕ → List String → Type 0
  Ends fuel seen =
      (result : List T) (endpoint : String)
      → (endpoint == "" || contains reach endpoint) ≡ true
      → (r : Result (List T)) × (read_pages fuel fetch seen result endpoint ≡ some r)

  read_page-Ends :
      (page : Result (Page T)) (result : List T) (fuel : ℕ) (seen : List String)
      → Follows page
      → Ends fuel seen
      → (r : Result (List T)) × (read_page page result (read_pages fuel fetch seen) ≡ some r)
  unfolding read_page Ends
  read_page-Ends (err e) result fuel seen next rest = (err e, refl)
  read_page-Ends (ok page) result fuel seen next rest = elim (Option-cases page.value) [
    | inl missing ↦ (err (text "graph page has no value array"), rw missing refl)
    | inr (values, there) ↦
        let (r, ends) = rest (result ++ values) page.next next in (r, rw there ends)
  ]

  read_pages-Ends :
      (fuel : ℕ) (seen : List String)
      → All (λ e. Follows (fetch e)) reach
      → Distinct seen
      → All (λ e. contains reach e ≡ true) seen
      → length reach + 1 ≤ fuel + length seen
      → Ends fuel seen
  unfolding read_pages Ends
  read_pages-Ends zero seen closed d known enough result endpoint here =
      let few = Distinct-length seen reach d known in absurd (omega arith)
  read_pages-Ends (suc fuel) seen closed d known enough result endpoint here =
      elim (Bool-cases (endpoint == "")) [
        | inl e ↦ (ok result, rw e refl)
        | inr n ↦ elim (Bool-cases (contains seen endpoint)) [
          | inl e ↦ (err (text "graph pagination cycle"), rw (n, e) refl)
          | inr new ↦
              let member : contains reach endpoint ≡ true = ground (n, here, arith) in
              let (r, ends) =
                read_page-Ends (fetch endpoint) result fuel (endpoint ∷ seen)
                  (All-contains (λ e. Follows (fetch e)) reach endpoint closed member)
                  (read_pages-Ends fuel (endpoint ∷ seen) closed (new, d) (member, known)
                    (omega arith)) in
              (r, rw (n, new) ends)
        ]
      ]

  -- Let every page that is fetched from an endpoint of a list lead to none or to an endpoint of the
  -- list. Then readPages, begun at an endpoint of the list, ends after at most one round more than the
  -- list has endpoints: the check for endpoints seen before breaks every cycle.
  pub read_pages-terminates :
      (endpoint : String)
      → All (λ e. Follows (fetch e)) reach
      → contains reach endpoint ≡ true
      → (r : Result (List T)) × (read_pages (length reach + 1) fetch [] [] endpoint ≡ some r)
  unfolding Ends
  read_pages-terminates endpoint closed member =
      read_pages-Ends (length reach + 1) [] closed tt tt (omega arith) [] endpoint
        (ground (member, arith))
