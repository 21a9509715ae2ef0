-- ===== src/Rolesync/Ownership/Exclusion.antt =====
-- What ResolveOwnership decides, and that no two role syncs hold one value at a time.
use mathlib.Core.List.{Memᴰ}
use mathlib.Core.Path.{subst}
use miniziti_operator.Prelude.{
  String, ◌≡◌, ◌∙◌, sym, ap, Bool, true, false, not, ◌&&◌, List, [], ◌∷◌, arith, refl, eq_iff, ◌==◌,
  Bool-cases, inl, inr, All, All-Memᴰ,
}
use miniziti_operator.Strings.{contains}
use miniziti_operator.Rolesync.Ownership.{
  ResourceKey, SyncClaim, OwnershipInput, same_key, sorted_set, claim_before, owner_of,
  resolve_values, resolve_ownership,
}
use miniziti_operator.Rolesync.Ownership.SortedSet.{contains-sorted_set_one}
use miniziti_operator.Rolesync.Ownership.Winner.{claim_before_total, claims_value, owner_of-IsFirst}

abbrev wins : SyncClaim → List SyncClaim → String → Bool
wins self others v = same_key (owner_of self others v) self.resource

conflicts-resolve_values :
    (self : SyncClaim) (others : List SyncClaim) (values : List String) (v : String)
    → contains (resolve_values self others values).conflicts v
      ≡ (contains values v && not (wins self others v))
unfolding resolve_values contains
conflicts-resolve_values self others [] v = refl
conflicts-resolve_values self others (x ∷ values) v = elim (Bool-cases (x == v)) [
  | inl e ↦
      rw ((eq_iff x v).0 e)
        (ground (arith, (eq_iff v v).1 refl, conflicts-resolve_values self others values v))
  | inr n ↦ ground (arith, n, conflicts-resolve_values self others values v)
]

-- A value is reported as a conflict exactly when it is a candidate and its owner is another
-- resource than the sync itself.
pub conflicts-resolve_ownership :
    (input : OwnershipInput) (v : String)
    → contains (resolve_ownership input).conflicts v ≡ (
        contains input.candidates v
        && not (same_key (owner_of input.self input.others v) input.self.resource))
unfolding resolve_ownership
conflicts-resolve_ownership input v =
    conflicts-resolve_values input.self input.others (sorted_set (input.candidates ∷ [])) v
    ∙ ap (λ b. b && not (wins input.self input.others v))
        (contains-sorted_set_one input.candidates v)

same_key-sym : (a b : ResourceKey) → same_key a b ≡ true → same_key b a ≡ true
same_key-sym a b h = ground (
  arith,
  eq_iff a.namespace b.namespace,
  eq_iff b.namespace a.namespace,
  eq_iff a.name b.name,
  eq_iff b.name a.name,
)

-- A sync that owns a value it claims stands before every other claimant.
wins_first :
    (self : SyncClaim) (others : List SyncClaim) (v : String)
    → All (λ c. same_key c.resource self.resource ≡ false) others
    → claims_value v self ≡ true
    → wins self others v ≡ true
    → All (λ c. claims_value v c ≡ true → claim_before c self ≡ false) (self ∷ others)
wins_first self others v apart claims won = elim (owner_of-IsFirst self others v) [
  | inl (nobody, _) ↦ cc (nobody.0)
  | inr (w, first, owner) ↦
      first_is w first.0 first.2 (ap (λ k. same_key k self.resource) (sym owner) ∙ won)
]
  where
    first_is :
        (w : SyncClaim)
        → Memᴰ w (self ∷ others)
        → All (λ c. claims_value v c ≡ true → claim_before c w ≡ false) (self ∷ others)
        → same_key w.resource self.resource ≡ true
        → All (λ c. claims_value v c ≡ true → claim_before c self ≡ false) (self ∷ others)
    first_is w (Memᴰ.head e) h k =
        subst (λ z. All (λ c. claims_value v c ≡ true → claim_before c z ≡ false) (self ∷ others)) e
          h
    first_is w (Memᴰ.tail m) h k = cc (All-Memᴰ _ others apart m)

-- Mutual exclusion: let two different role syncs each see the recorded claim of the other, and no
-- second claim of their own resource. Then for a value that both claim and both ask for, if the
-- first gets no conflict the second gets one: at most one of them may write the value.
pub resolve_ownership-exclusive :
    (a b : SyncClaim) (others_a others_b : List SyncClaim) (asked_a asked_b : List String)
    → (v : String) → same_key a.resource b.resource ≡ false
    → Memᴰ b others_a
    → Memᴰ a others_b
    → All (λ c. same_key c.resource a.resource ≡ false) others_a
    → All (λ c. same_key c.resource b.resource ≡ false) others_b
    → claims_value v a ≡ true
    → claims_value v b ≡ true
    → contains asked_a v ≡ true
    → contains asked_b v ≡ true
    → contains
        (resolve_ownership (record { self = a; candidates = asked_a; others = others_a })).conflicts
        v
      ≡ false
    → contains
        (resolve_ownership (record { self = b; candidates = asked_b; others = others_b })).conflicts
        v
      ≡ true
resolve_ownership-exclusive a b others_a others_b asked_a asked_b v differ ba ab one_a one_b ca cb
      qa qb free =
    elim (Bool-cases (wins b others_b v)) [
      | inl won ↦
          let a_won : wins a others_a v ≡ true = ground (
            arith,
            conflicts-resolve_ownership
                (record { self = a; candidates = asked_a; others = others_a }) v,
          ) in
          let b_after = All-Memᴰ _ others_a (wins_first a others_a v one_a ca a_won).1 ba cb in
          let a_after = All-Memᴰ _ others_b (wins_first b others_b v one_b cb won).1 ab ca in
          cc (claim_before_total a b a_after b_after)
      | inr lost ↦ ground (
        arith,
        conflicts-resolve_ownership (record { self = b; candidates = asked_b; others = others_b })
            v,
      )
    ]
