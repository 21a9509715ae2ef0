-- ===== src/Rolesync/Retirement/Pending.antt =====
-- Which identities may still hold a retired attribute.
use miniziti_operator.Prelude.{
  String, ◌≡◌, ◌∙◌, sym, ap, Bool, true, false, ◌||◌, none, some, List, [], ◌∷◌, arith, refl, ◌==◌,
  ◌↔◌, ltb, length, if◌then◌else◌,
}
use miniziti_operator.Maps.{lookup, insert, get_or, lookup-insert, lookup-delete, empty_of_lookup}
use miniziti_operator.Rolesync.Ownership.{sorted_set}
use miniziti_operator.Rolesync.Plan.{RetirementHolder}
use miniziti_operator.Rolesync.Planner.{without, within, overlaps}
use miniziti_operator.Rolesync.Retirement.{
  OutcomeKind, observed, patched, deleted, skipped, IdentityOutcome, CompletionInput, seed_holders,
  see_attributes, see_outcome, see_outcomes, retirement_pending,
}

-- The snapshot shows the identity as a holder.
abbrev pub held_in_snapshot : List RetirementHolder → String → Bool
held_in_snapshot [] id = false
held_in_snapshot (h ∷ holders) id = h.identity_id == id || held_in_snapshot holders id

-- Whether the identity is known to hold a retired attribute after an outcome, given whether it was
-- before: a deletion clears it, attributes that were read decide, and a failure changes nothing.
abbrev pub holds_after : List String → OutcomeKind → IdentityOutcome → Bool → Bool
holds_after retired deleted o before = false
holds_after retired observed o before = overlaps retired o.role_attributes
holds_after retired patched o before = overlaps retired o.role_attributes
holds_after retired skipped o before = overlaps retired o.role_attributes
holds_after retired _ o before = before

abbrev pub holds_finally : List String → List IdentityOutcome → String → Bool → Bool
holds_finally retired [] id before = before
holds_finally retired (o ∷ outcomes) id before =
    holds_finally retired outcomes id
      (if o.identity_id == id then holds_after retired o.kind o before else before)

abbrev has_key : String → List (String × List String) → Bool
has_key id holders = elim (lookup id holders) [ none ↦ false | some _ ↦ true ]

has_key-seed_holders :
    (holders : List (String × List String)) (snapshot : List RetirementHolder) (id : String)
    → has_key id (seed_holders holders snapshot)
      ≡ (has_key id holders || held_in_snapshot snapshot id)
unfolding seed_holders
has_key-seed_holders holders [] id = ground arith
has_key-seed_holders holders (h ∷ snapshot) id =
    let values = sorted_set (get_or [] h.identity_id holders ∷ h.values ∷ []) in
    ground (
      arith,
      has_key-seed_holders (insert h.identity_id values holders) snapshot id,
      lookup-insert h.identity_id id values holders,
    )

within-overlaps :
    (retired attributes : List String)
    → ltb 0 (length (within retired attributes)) ≡ overlaps retired attributes
unfolding within overlaps
within-overlaps [] attributes = refl
within-overlaps (v ∷ retired) attributes = ground (arith, within-overlaps retired attributes)

has_key-see_attributes :
    (retired : List String) (o : IdentityOutcome) (holders : List (String × List String))
    (id : String)
    → has_key id (see_attributes retired o holders)
      ≡ (if o.identity_id == id then overlaps retired o.role_attributes else has_key id holders)
unfolding see_attributes
has_key-see_attributes retired o holders id = ground (
  arith,
  within-overlaps retired o.role_attributes,
  lookup-delete o.identity_id id holders,
  lookup-insert o.identity_id id (sorted_set (within retired o.role_attributes ∷ [])) holders,
)

has_key-see_outcome :
    (retired : List String) (kind : OutcomeKind) (o : IdentityOutcome)
    → (holders : List (String × List String)) (id : String)
    → has_key id (see_outcome retired kind o holders) ≡ (
        if o.identity_id == id
        then holds_after retired kind o (has_key id holders)
        else has_key id holders)
unfolding see_outcome
has_key-see_outcome retired deleted o holders id =
    ground (arith, lookup-delete o.identity_id id holders)
has_key-see_outcome retired observed o holders id = has_key-see_attributes retired o holders id
has_key-see_outcome retired patched o holders id = has_key-see_attributes retired o holders id
has_key-see_outcome retired skipped o holders id = has_key-see_attributes retired o holders id
has_key-see_outcome retired _ o holders id = ground arith

has_key-see_outcomes :
    (retired : List String) (holders : List (String × List String))
    (outcomes : List IdentityOutcome)
    → (id : String)
    → has_key id (see_outcomes retired holders outcomes)
      ≡ holds_finally retired outcomes id (has_key id holders)
unfolding see_outcomes
has_key-see_outcomes retired holders [] id = refl
has_key-see_outcomes retired holders (o ∷ outcomes) id =
    has_key-see_outcomes retired (see_outcome retired o.kind o holders) outcomes id
    ∙ ap (holds_finally retired outcomes id) (has_key-see_outcome retired o.kind o holders id)

-- After the run, the identity may still hold a retired attribute.
abbrev pub may_hold : CompletionInput → String → Bool
may_hold input id =
    holds_finally (without input.previous_values input.plan.current_values) input.outcomes id
      (held_in_snapshot input.plan.retirement_holders id)

-- Retirement is pending exactly while some identity may still hold a retired attribute: one that the
-- snapshot shows as a holder, or whose attributes were read since, and that has not been deleted or
-- read without any of them.
pub retirement_pending-exact :
    (input : CompletionInput)
    → (retirement_pending input ≡ false) ↔ ((id : String) → may_hold input id ≡ false)
unfolding retirement_pending
retirement_pending-exact input = (
  λ e id. sym (held id) ∙ ap (has_key id) (empty_of_length e),
  λ h.
      ap (λ (l : List (String × List String)). ltb 0 (length l))
        (empty_of_lookup final (λ id. absent id (held id ∙ h id))),
)
  where
    retired : List String
    retired = without input.previous_values input.plan.current_values

    final : List (String × List String)
    final = see_outcomes retired (seed_holders [] input.plan.retirement_holders) input.outcomes

    held : (id : String) → has_key id final ≡ may_hold input id
    held id =
        has_key-see_outcomes retired (seed_holders [] input.plan.retirement_holders) input.outcomes
          id
        ∙ ap (holds_finally retired input.outcomes id)
            (has_key-seed_holders [] input.plan.retirement_holders id)

    empty_of_length : ltb 0 (length final) ≡ false → final ≡ []
    empty_of_length e = ground arith

    absent : (id : String) → has_key id final ≡ false → lookup id final ≡ none
    absent id e = ground arith
