-- ===== src/Openziti/Policy/Expressions.antt =====
-- Which role expressions a policy gets.
use miniziti_operator.Prelude.{
  String, ◌≡◌, ◌∙◌, sym, ap, refl, Bool, false, not, ◌&&◌, ◌||◌, List, [], ◌∷◌, ◌==◌, arith, eq_iff,
  Bool-cases, inl, inr,
}
use miniziti_operator.Strings.{contains}
use miniziti_operator.Strings.Sets.{Distinct}
use miniziti_operator.Openziti.Policy.{
  ResolvedSelector, expression, snoc, add_expressions, selector_roles,
}

-- Some name has this expression, which is not the bare mark.
abbrev pub named : String → List String → String → Bool
named mark [] e = false
named mark (name ∷ names) e =
    (not (expression mark name == mark) && expression mark name == e) || named mark names e

pub contains-snoc :
    (xs : List String) (v e : String) → contains (snoc xs v) e ≡ contains xs e || v == e
unfolding contains snoc
contains-snoc [] v e = ground arith
contains-snoc (x ∷ xs) v e = ground (arith, contains-snoc xs v e)

contains-add_expressions :
    (mark : String) (names compiled : List String) (e : String)
    → contains (add_expressions mark names compiled) e ≡ contains compiled e || named mark names e
unfolding add_expressions
contains-add_expressions mark [] compiled e = ground arith
contains-add_expressions mark (name ∷ names) compiled e =
    let x = expression mark name in
    elim (Bool-cases (x == mark || contains compiled x)) [
      | inr new ↦
          rw (new, add_expressions)
            (contains-add_expressions mark names (snoc compiled x) e
              ∙ ground (arith, contains-snoc compiled x e))
      | inl old ↦
          rw (old, add_expressions)
            (contains-add_expressions mark names compiled e ∙ elim (Bool-cases (x == e)) [
              | inr ne ↦ ground arith
              | inl same ↦ rw (← (eq_iff x e).0 same) (ground arith)
            ])
    ]

Distinct-snoc :
    (xs : List String) (v : String) → Distinct xs → contains xs v ≡ false → Distinct (snoc xs v)
unfolding contains snoc
Distinct-snoc [] v d n = (refl, tt)
Distinct-snoc (x ∷ xs) v d n = (
  let e : contains (snoc xs v) x ≡ contains xs x || v == x = contains-snoc xs v x in
      elim (Bool-cases (v == x)) [
        | inl same ↦
            absurd (ground (arith, (eq_iff v x).0 same, (eq_iff x v).1 (sym ((eq_iff v x).0 same))))
        | inr ne ↦ ground (arith, e)
      ],
  Distinct-snoc xs v d.1 (ground arith),
)

Distinct-add_expressions :
    (mark : String) (names compiled : List String)
    → Distinct compiled
    → Distinct (add_expressions mark names compiled)
unfolding add_expressions
Distinct-add_expressions mark [] compiled d = d
Distinct-add_expressions mark (name ∷ names) compiled d =
    let x = expression mark name in
    elim (Bool-cases (x == mark || contains compiled x)) [
      | inl old ↦ rw (old, add_expressions) (Distinct-add_expressions mark names compiled d)
      | inr new ↦
          rw (new, add_expressions)
            (Distinct-add_expressions mark names (snoc compiled x)
              (Distinct-snoc compiled x d (ground arith)))
    ]

-- The roles of a selector are exactly "@" with each trimmed id and "#" with each trimmed attribute,
-- blank ones left out, and no role is there twice.
pub selector_roles-exact :
    (selector : ResolvedSelector)
    → ((e : String)
        → contains (selector_roles selector) e
          ≡ named "@" selector.ids e || named "#" selector.role_attributes e)
      × Distinct (selector_roles selector)
unfolding selector_roles
selector_roles-exact selector =
    let at = add_expressions "@" selector.ids [] in
    (
      λ e.
          contains-add_expressions "#" selector.role_attributes at e
          ∙ ap (λ b. b || named "#" selector.role_attributes e)
              (contains-add_expressions "@" selector.ids [] e),
      Distinct-add_expressions "#" selector.role_attributes at
          (Distinct-add_expressions "@" selector.ids [] tt),
    )
