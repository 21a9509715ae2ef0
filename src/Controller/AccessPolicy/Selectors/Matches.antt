-- ===== src/Controller/AccessPolicy/Selectors/Matches.antt =====
-- What a run of the selector loops finds.
use miniziti_operator.Prelude.{
  ℕ, ◌+◌, String, ◌≡◌, ◌∙◌, refl, Bool, false, not, ◌||◌, ◌&&◌, List, [], ◌∷◌, ◌==◌, arith, eq_iff,
  Bool-cases, inl, inr, if◌then◌else◌,
}
use miniziti_operator.Strings.{contains}
use miniziti_operator.Openziti.Policy.Expressions.{contains-snoc}
use miniziti_operator.Api.{SelectorSpec}
use miniziti_operator.Controller.AccessPolicy.Selectors.{
  matches_names, matches_selector, append_unique, Selectable, Tally, no_matches, tally_item,
  tally_items, tally_backend_item, tally_backend,
}

-- Some item of a matched name has this id.
abbrev pub granted : SelectorSpec → List Selectable → String → Bool
granted selector [] id = false
granted selector (item ∷ items) id =
    (matches_names selector.match_names item.name && (not (item.id == "") && item.id == id))
    || granted selector items id

-- The number of items of a matched name that have no id yet.
abbrev pub waiting : SelectorSpec → List Selectable → ℕ
waiting selector [] = 0
waiting selector (item ∷ items) =
    let rest = waiting selector items in
    if matches_names selector.match_names item.name && item.id == "" then 1 + rest else rest

-- The number of items that the selector matches.
abbrev pub matched : SelectorSpec → List Selectable → ℕ
matched selector [] = 0
matched selector (item ∷ items) =
    let rest = matched selector items in
    if matches_selector selector item.name item.role_attributes then 1 + rest else rest

contains-append_unique :
    (xs : List String) (v e : String)
    → contains (append_unique xs v) e ≡ contains xs e || (not (v == "") && v == e)
unfolding append_unique
contains-append_unique xs v e = elim (Bool-cases (v == "" || contains xs v)) [
  | inr new ↦ rw new (contains-snoc xs v e ∙ ground arith)
  | inl old ↦ rw old (elim (Bool-cases (v == e)) [
    | inr ne ↦ ground arith
    | inl same ↦ rw (← (eq_iff v e).0 same) (ground arith)
  ])
]

-- One item adds its id, or itself to the items that wait.
tally_item-adds :
    (selector : SelectorSpec) (tally : Tally) (item : Selectable) (id : String)
    → (contains (tally_item selector tally item).ids id
        ≡ contains tally.ids id || granted selector (item ∷ []) id)
      × ((tally_item selector tally item).pending ≡ tally.pending + waiting selector (item ∷ []))
      × ((tally_item selector tally item).count + (tally_item selector tally item).pending
          ≡ tally.count + tally.pending + matched selector (item ∷ []))
unfolding tally_item matches_selector
tally_item-adds selector tally item id =
    elim (Bool-cases (matches_names selector.match_names item.name)) [
      | inl e ↦ elim (Bool-cases (item.id == "")) [
        | inl blank ↦ rw (e, blank) (ground arith, ground arith, ground arith)
        | inr has ↦
            rw (e, has)
              (
                contains-append_unique tally.ids item.id id ∙ ground arith,
                ground arith,
                ground arith,
              )
      ]
      | inr n ↦ elim (Bool-cases (matches_selector selector item.name item.role_attributes)) [
        | inl m ↦ ground (n, m, arith)
        | inr m ↦ ground (n, m, arith)
      ]
    ]

tally_items-adds :
    (selector : SelectorSpec) (tally : Tally) (items : List Selectable) (id : String)
    → let after = tally_items selector tally items in
      (contains after.ids id ≡ contains tally.ids id || granted selector items id)
      × (after.pending ≡ tally.pending + waiting selector items)
      × (after.count + after.pending ≡ tally.count + tally.pending + matched selector items)
unfolding tally_items
tally_items-adds selector tally [] id = (ground arith, ground arith, ground arith)
tally_items-adds selector tally (item ∷ items) id =
    let (ids, pending, counts) =
      tally_items-adds selector (tally_item selector tally item) items id in
    let (ids', pending', counts') = tally_item-adds selector tally item id in
    (ground (ids, ids', arith), ground (pending, pending', arith), ground (counts, counts', arith))

-- A run over the items of a selector finds exactly the ids of the items with a matched name that have
-- an id; it counts as pending exactly those of a matched name that have none; and every item that the
-- selector matches is counted once, as found or as pending.
pub tally_items-exact :
    (selector : SelectorSpec) (items : List Selectable)
    → let found = tally_items selector no_matches items in
      ((id : String) → contains found.ids id ≡ granted selector items id)
      × (found.pending ≡ waiting selector items)
      × (found.count + found.pending ≡ matched selector items)
unfolding contains
tally_items-exact selector items = (
  (λ id. (tally_items-adds selector no_matches items id).0 ∙ ground arith),
  (tally_items-adds selector no_matches items "").1 ∙ omega arith,
  (tally_items-adds selector no_matches items "").2 ∙ omega arith,
)

tally_backend_item-adds :
    (selector : SelectorSpec) (tally : Tally) (item : Selectable) (id : String)
    → (contains (tally_backend_item selector tally item).ids id
        ≡ contains tally.ids id || granted selector (item ∷ []) id)
      × ((tally_backend_item selector tally item).pending ≡ tally.pending)
      × ((tally_backend_item selector tally item).count
          ≡ tally.count + matched selector (item ∷ []))
unfolding tally_backend_item matches_selector
tally_backend_item-adds selector tally item id =
    let added = contains-append_unique tally.ids item.id id in
    elim (Bool-cases (matches_names selector.match_names item.name)) [
      | inl e ↦ elim (Bool-cases (item.id == "")) [
        | inl blank ↦ rw (e, blank) (ground arith, refl, ground arith)
        | inr has ↦ rw (e, has) (added ∙ ground arith, refl, ground arith)
      ]
      | inr n ↦ elim (Bool-cases (matches_selector selector item.name item.role_attributes)) [
        | inl m ↦ ground (n, m, arith)
        | inr m ↦ ground (n, m, arith)
      ]
    ]

pub tally_backend-adds :
    (selector : SelectorSpec) (tally : Tally) (items : List Selectable) (id : String)
    → let after = tally_backend selector tally items in
      (contains after.ids id ≡ contains tally.ids id || granted selector items id)
      × (after.pending ≡ tally.pending)
      × (after.count ≡ tally.count + matched selector items)
unfolding tally_backend
tally_backend-adds selector tally [] id = (ground arith, refl, ground arith)
tally_backend-adds selector tally (item ∷ items) id =
    let (ids, pending, counts) =
      tally_backend-adds selector (tally_backend_item selector tally item) items id in
    let (ids', pending', counts') = tally_backend_item-adds selector tally item id in
    (ground (ids, ids', arith), pending ∙ pending', ground (counts, counts', arith))

-- Without a match nothing is granted.
pub granted-unmatched :
    (selector : SelectorSpec) (items : List Selectable) (id : String)
    → matched selector items ≡ 0
    → granted selector items id ≡ false
unfolding matches_selector
granted-unmatched selector [] id none_matched = refl
granted-unmatched selector (item ∷ items) id none_matched =
    elim (Bool-cases (matches_names selector.match_names item.name)) [
      | inl e ↦ ground (e, none_matched, arith)
      | inr n ↦
          let rest : matched selector items ≡ 0 = ground (none_matched, n, arith) in
          ground (n, granted-unmatched selector items id rest, arith)
    ]
