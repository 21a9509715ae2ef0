-- ===== src/Openziti/Client/Pages/Whole.antt =====
-- Reading page by page sees the whole list.
use mathlib.Core.List.{append_assoc}
use mathlib.Core.Path.{subst}
use miniziti_operator.Prelude.{
  ℕ, suc, zero, ◌+◌, ◌*◌, ◌<◌, ◌≡◌, refl, sym, ap, ◌∙◌, Option, none, some, List, [], ◌∷◌, ◌++◌,
  length, arith, Bool-cases, Option-cases, inl, inr, ◌⊎◌, take, drop, take-append-drop,
  take_of_short, length-take-le, length-drop_of_full, drop-drop, drop-zero,
}
use miniziti_operator.Errors.{Err, Result, ok, err, wrapped, Result-cases}
use miniziti_operator.Openziti.{Identity}
use miniziti_operator.Openziti.Rest.{IdentityDetail}
use miniziti_operator.Openziti.Convert.{identity_from_envelope}
use miniziti_operator.Openziti.Client.{Api, Kind, Call, Env}
use miniziti_operator.Openziti.Client.Pages.{
  limit, is_last, first, search_page, search_pages, identities_of, add_page, list_pages,
}

-- The backend answers a page with the items from the offset on, as many as the limit allows.
abbrev pub Serves : {D : Type 0} → (List Call → ℕ → Result (Option (List D))) → List D → Type 0
Serves page all =
    (t : List Call) (offset : ℕ) → page t offset ≡ ok (some (take limit (drop offset all)))

module _ {D O : Type 0} (kind : Kind) (page : List Call → ℕ → Result (Option (List D)))
    (accept : D → Option O) (api : Api) where
  first-append :
      (xs ys : List D)
      → first kind page accept api (xs ++ ys) ≡ elim (first kind page accept api xs) [
        | some o ↦ some o
        | none ↦ first kind page accept api ys
      ]
  unfolding first
  first-append [] ys = refl
  first-append (x ∷ xs) ys = elim (Option-cases (accept x)) [
    | inl e ↦ rw e (first-append xs ys)
    | inr (o, e) ↦ rw e refl
  ]

  search_pages_at :
      (all : List D) (fuel offset : ℕ) (t : List Call)
      → Serves page all
      → length (drop offset all) < limit * fuel
      → (search_pages kind page accept api fuel offset t).0
        ≡ ok (first kind page accept api (drop offset all))
  unfolding search_pages search_page
  search_pages_at all zero offset t serves h = absurd (omega (h, arith))
  search_pages_at all (suc fuel) offset t serves h =
      let left = drop offset all in
      let items = take limit left in
      let F = first kind page accept api in
      let whole : first kind page accept api left ≡ _ =
        ap (first kind page accept api) (sym (take-append-drop limit left))
        ∙ first-append items (drop limit left) in
      rw (serves t offset) (elim (Option-cases (first kind page accept api items)) [
        | inr (o, e) ↦ rw (search_page, e, whole, e) refl
        | inl e ↦ elim (Bool-cases (is_last (length items))) [
          | inl last ↦
              let short : length items < limit = ground (last, arith) in
              let same = take_of_short limit left short in
              rw (search_page, e, last) (ap ok (sym (ap F (sym same) ∙ e)))
          | inr more ↦
              let full : length items ≡ limit = ground (more, length-take-le limit left, arith) in
              let less = length-drop_of_full limit left full in
              let there : drop (offset + length items) all ≡ drop limit left =
                ap (λ n. drop (offset + n) all) full ∙ sym (drop-drop offset limit all) in
              let shorter : length (drop (offset + length items) all) < limit * fuel =
                rw there (omega (h, less, arith)) in
              rw (search_page, e, more)
                (search_pages_at all fuel (offset + length items) _ serves shorter
                  ∙ ap (λ l. ok (F l)) there
                  ∙ ap ok (sym (whole ∙ rw e refl)))
        ]
      ])

  -- A search through the pages of a backend that serves a list by offset and limit ends, with fuel for a
  -- page more than the list has full pages, and finds the first item of the whole list that is accepted:
  -- none is skipped between two pages, and it answers that there is none only if there is none.
  pub search_pages-whole :
      (all : List D) (fuel : ℕ) (t : List Call)
      → Serves page all
      → length all < limit * fuel
      → (search_pages kind page accept api fuel 0 t).0 ≡ ok (first kind page accept api all)
  search_pages-whole all fuel t serves h =
      search_pages_at all fuel 0 t serves (rw (drop-zero all) h)
      ∙ ap (λ l. ok (first kind page accept api l)) (drop-zero all)

-- One after the other, or the error of the first part that has one.
abbrev both : Result (List Identity) → Result (List Identity) → Result (List Identity)
both (err x) s = err x
both (ok is) (err x) = err x
both (ok is) (ok js) = ok (is ++ js)

both_nil : (r : Result (List Identity)) → both (ok []) r ≡ r
both_nil (ok is) = refl
both_nil (err x) = refl

both_assoc :
    (is js : List Identity) (r : Result (List Identity))
    → both (ok (is ++ js)) r ≡ both (ok is) (both (ok js) r)
both_assoc is js (ok ks) = ap ok (append_assoc is js ks)
both_assoc is js (err x) = refl

identities_of-append :
    (xs ys : List IdentityDetail)
    → identities_of (xs ++ ys) ≡ both (identities_of xs) (identities_of ys)
unfolding identities_of
identities_of-append [] ys = elim (Result-cases (identities_of ys)) [
  | inl (js, e) ↦ rw e refl
  | inr (x, e) ↦ rw e refl
]
identities_of-append (d ∷ ds) ys = elim (Result-cases (identity_from_envelope (some d))) [
  | inr (x, e) ↦ rw (identities_of, e) refl
  | inl (i, e) ↦ elim (Result-cases (identities_of ds)) [
    | inr (x, f) ↦ rw (identities_of, e, identities_of-append ds ys, f) refl
    | inl (is, f) ↦ elim (Result-cases (identities_of ys)) [
      | inl (js, g) ↦ rw (identities_of, e, identities_of-append ds ys, f, g) refl
      | inr (x, g) ↦ rw (identities_of, e, identities_of-append ds ys, f, g) refl
    ]
  ]
]

-- The result has one identity for each item, in order, or the error of the first item without one, and
-- then nothing else.
abbrev pub ReadAs : List IdentityDetail → Result (List Identity) → Type 0
ReadAs [] r = r ≡ ok []
ReadAs (d ∷ ds) r =
    ((i : Identity) × (is : List Identity) × (identity_from_envelope (some d) ≡ ok i)
      × ReadAs ds (ok is)
      × (r ≡ ok (i ∷ is)))
    ⊎ ((x : Err) × (identity_from_envelope (some d) ≡ err x)
        × (r ≡ err (wrapped "list identities" x)))
    ⊎ ((i : Identity) × (x : Err) × (identity_from_envelope (some d) ≡ ok i)
        × ReadAs ds (err x)
        × (r ≡ err x))

identities_of-ReadAs : (all : List IdentityDetail) → ReadAs all (identities_of all)
unfolding identities_of
identities_of-ReadAs [] = refl
identities_of-ReadAs (d ∷ ds) =
    let rest = identities_of-ReadAs ds in
    elim (Result-cases (identity_from_envelope (some d))) [
      | inr (x, e) ↦ rw (identities_of, e) (inr (inl (x, refl, refl)))
      | inl (i, e) ↦ elim (Result-cases (identities_of ds)) [
        | inl (is, f) ↦
            let read : ReadAs ds (ok is) = subst (ReadAs ds) f rest in
            rw (identities_of, e, f) (inl (i, is, refl, read, refl))
        | inr (x, f) ↦
            let read : ReadAs ds (err x) = subst (ReadAs ds) f rest in
            rw (identities_of, e, f) (inr (inr (i, x, refl, read, refl)))
      ]
    ]

module _ (env : Env) (api : Api) where
  list_pages_at :
      (all : List IdentityDetail) (sofar : List Identity) (fuel offset : ℕ) (t : List Call)
      → Serves (env.identity_page api) all
      → length (drop offset all) < limit * fuel
      → (list_pages env api fuel sofar offset t).0
        ≡ both (ok sofar) (identities_of (drop offset all))
  unfolding list_pages add_page
  list_pages_at all sofar zero offset t serves h = absurd (omega (h, arith))
  list_pages_at all sofar (suc fuel) offset t serves h =
      let left = drop offset all in
      let items = take limit left in
      let whole : identities_of left
          ≡ both (identities_of items) (identities_of (drop limit left)) =
        ap identities_of (sym (take-append-drop limit left))
        ∙ identities_of-append items (drop limit left) in
      rw (serves t offset) (elim (Result-cases (identities_of items)) [
        | inr (x, e) ↦ rw (add_page, e, whole, e) refl
        | inl (is, e) ↦ elim (Bool-cases (is_last (length items))) [
          | inl last ↦
              let short : length items < limit = ground (last, arith) in
              let same = take_of_short limit left short in
              rw (add_page, e, last) (ap (both (ok sofar)) (sym (ap identities_of (sym same) ∙ e)))
          | inr more ↦
              let full : length items ≡ limit = ground (more, length-take-le limit left, arith) in
              let less = length-drop_of_full limit left full in
              let there : drop (offset + length items) all ≡ drop limit left =
                ap (λ n. drop (offset + n) all) full ∙ sym (drop-drop offset limit all) in
              let shorter : length (drop (offset + length items) all) < limit * fuel =
                rw there (omega (h, less, arith)) in
              rw (add_page, e, more)
                (list_pages_at all (sofar ++ is) fuel (offset + length items) _ serves shorter
                  ∙ ap (λ l. both (ok (sofar ++ is)) (identities_of l)) there
                  ∙ both_assoc sofar is (identities_of (drop limit left))
                  ∙ ap (both (ok sofar)) (sym (whole ∙ rw e refl)))
        ]
      ])

  -- The list of identities, read page by page from a backend that serves it by offset and limit, ends
  -- with fuel for a page more than the list has full pages. It holds one identity for each item of
  -- the backend, what the item is converted to, in the backend's order, or is the error of the first item
  -- that cannot be converted: a part of the list is never taken for the whole.
  pub list_pages-whole :
      (all : List IdentityDetail) (fuel : ℕ) (t : List Call)
      → Serves (env.identity_page api) all
      → length all < limit * fuel
      → ReadAs all (list_pages env api fuel [] 0 t).0
  list_pages-whole all fuel t serves h =
      let same : (list_pages env api fuel [] 0 t).0 ≡ identities_of all =
        list_pages_at all [] fuel 0 t serves (rw (drop-zero all) h)
        ∙ ap (λ l. both (ok []) (identities_of l)) (drop-zero all)
        ∙ both_nil (identities_of all) in
      rw same (identities_of-ReadAs all)
