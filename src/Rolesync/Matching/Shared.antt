-- ===== src/Rolesync/Matching/Shared.antt =====
-- How many identities share an external id, by identityIndex.
use miniziti_operator.Prelude.{
  ℕ, ◌+◌, String, ◌≡◌, ◌∙◌, ap, refl, not, ◌&&◌, List, [], ◌∷◌, ◌++◌, ◌==◌, arith, eq_iff,
  Bool-cases, inl, inr, length, length-append, if◌then◌else◌,
}
use miniziti_operator.Strings.{CaseTables, to_lower}
use miniziti_operator.Maps.{lookup, insert, get_or, lookup-insert}
use miniziti_operator.Openziti.{Identity}
use miniziti_operator.Rolesync.Matching.{index_from, identity_index}

-- The number of identities with this external id, in lower case.
abbrev pub sharing : CaseTables → String → List Identity → ℕ
sharing u key [] = 0
sharing u key (identity ∷ identities) =
    let rest = sharing u key identities in
    if not (identity.external_id == "") && to_lower u identity.external_id == key
    then 1 + rest
    else rest

module _ (u : CaseTables) (key : String) where
  length-index_from :
      (index : List (String × List Identity)) (identities : List Identity)
      → length (get_or [] key (index_from u index identities))
        ≡ length (get_or [] key index) + sharing u key identities
  unfolding index_from
  length-index_from index [] = omega arith
  length-index_from index (identity ∷ identities) =
      let own = to_lower u identity.external_id in
      let held = get_or [] own index in
      elim (Bool-cases (identity.external_id == "")) [
        | inl blank ↦ rw blank (length-index_from index identities)
        | inr has ↦
            let found = lookup-insert own key (held ++ identity ∷ []) index in
            let more = length-index_from (insert own (held ++ identity ∷ []) index) identities in
            elim (Bool-cases (own == key)) [
              | inr other ↦ rw (has, other, more, get_or, found, other) refl
              | inl same ↦
                  let e : own ≡ key = (eq_iff own key).0 same in
                  let alike = ap (λ k. length (get_or [] k index)) e in
                  rw (has, same, more, get_or, found, same, length-append held (identity ∷ []))
                    (omega (alike, arith))
            ]
      ]

  pub length-identity_index :
      (identities : List Identity)
      → length (get_or [] key (identity_index u identities)) ≡ sharing u key identities
  unfolding identity_index lookup
  length-identity_index identities = length-index_from [] identities ∙ omega arith
