-- ===== src/Rolesync/Ownership/Winner.antt =====
-- The inner loop of ResolveOwnership finds the first of the claimants in the order of `claimBefore`.
use mathlib.Core.List.{Memᴰ, append-nil, append_assoc}
use miniziti_operator.Prelude.{
  String, ◌≡◌, Bool, true, false, Option, none, some, List, [], ◌∷◌, ◌++◌, arith, refl, eq_iff,
  Bool-cases, ◌⊎◌, inl, inr, All, All-append, All-map, Memᴰ-append_left, Memᴰ-append_last,
  if◌then◌else◌,
}
use miniziti_operator.Strings.{contains}
use miniziti_operator.Strings.Order.{str_ltb_irrefl, str_ltb_trans, str_ltb_antisymm, str_ltb_asymm}
use miniziti_operator.Rolesync.Ownership.{
  SyncClaim, same_key, claim_before, better, winner_from, owner_of, owner_or_self,
}

pub claim_before_irrefl : (a : SyncClaim) → claim_before a a ≡ false
unfolding claim_before
claim_before_irrefl a =
    ground (arith, str_ltb_irrefl a.resource.namespace, str_ltb_irrefl a.resource.name)

pub claim_before_trans :
    (a b c : SyncClaim)
    → claim_before a b ≡ true
    → claim_before b c ≡ true
    → claim_before a c ≡ true
unfolding claim_before
claim_before_trans a b c h k = ground (
  arith,
  eq_iff a.resource.namespace b.resource.namespace,
  eq_iff b.resource.namespace c.resource.namespace,
  eq_iff a.resource.namespace c.resource.namespace,
  str_ltb_irrefl a.resource.namespace,
  str_ltb_asymm a.resource.namespace b.resource.namespace,
  str_ltb_trans a.resource.namespace b.resource.namespace c.resource.namespace,
  str_ltb_trans a.resource.name b.resource.name c.resource.name,
)

-- Claims of which neither is before the other are of one resource.
pub claim_before_total :
    (a b : SyncClaim)
    → claim_before a b ≡ false
    → claim_before b a ≡ false
    → same_key a.resource b.resource ≡ true
unfolding claim_before
claim_before_total a b h k = ground (
  arith,
  eq_iff a.resource.namespace b.resource.namespace,
  eq_iff b.resource.namespace a.resource.namespace,
  eq_iff a.resource.name b.resource.name,
  str_ltb_antisymm a.resource.namespace b.resource.namespace,
  str_ltb_antisymm a.resource.name b.resource.name,
)

abbrev pub claims_value : String → SyncClaim → Bool
claims_value value claim = contains claim.managed_attributes value

-- `none` where nobody claims the value; else a claimant before which no claimant stands.
abbrev pub IsWinner : String → List SyncClaim → Option SyncClaim → Type 0
IsWinner value claims none = All (λ c. claims_value value c ≡ false) claims
IsWinner value claims (some w) =
    Memᴰ w claims
    × (claims_value value w ≡ true)
    × All (λ c. claims_value value c ≡ true → claim_before c w ≡ false) claims

abbrev step : String → Option SyncClaim → SyncClaim → Option SyncClaim
step value winner claim =
    if contains claim.managed_attributes value then better winner claim else winner

better-IsWinner :
    (value : String) (seen : List SyncClaim) (w : Option SyncClaim) (c : SyncClaim)
    → claims_value value c ≡ true
    → IsWinner value seen w
    → IsWinner value (seen ++ c ∷ []) (better w c)
unfolding better
better-IsWinner value seen none c t h = (
  Memᴰ-append_last c seen,
  t,
  All-append _ seen (c ∷ []) (All-map _ _ seen (λ x n y. cc) h) (λ _. claim_before_irrefl c, tt),
)
better-IsWinner value seen (some w) c t h = elim (Bool-cases (claim_before c w)) [
  | inl e ↦ rw e (
    Memᴰ-append_last c seen,
    t,
    All-append _ seen (c ∷ []) (All-map _ _ seen (λ x f y. after x e (f y)) h.2)
        (λ _. claim_before_irrefl c, tt),
  )
  | inr n ↦
      rw n (Memᴰ-append_left seen (c ∷ []) h.0, h.1, All-append _ seen (c ∷ []) h.2 (λ _. n, tt))
]
  where
    after :
        (x : SyncClaim)
        → claim_before c w ≡ true
        → claim_before x w ≡ false
        → claim_before x c ≡ false
    after x e f = elim (Bool-cases (claim_before x c)) [
      | inl g ↦ cc (claim_before_trans x c w g e)
      | inr n ↦ n
    ]

skip-IsWinner :
    (value : String) (seen : List SyncClaim) (w : Option SyncClaim) (c : SyncClaim)
    → claims_value value c ≡ false
    → IsWinner value seen w
    → IsWinner value (seen ++ c ∷ []) w
skip-IsWinner value seen none c n h = All-append _ seen (c ∷ []) h (n, tt)
skip-IsWinner value seen (some w) c n h =
    (Memᴰ-append_left seen (c ∷ []) h.0, h.1, All-append _ seen (c ∷ []) h.2 (λ t. cc, tt))

step-IsWinner :
    (value : String) (seen : List SyncClaim) (w : Option SyncClaim) (c : SyncClaim)
    → IsWinner value seen w
    → IsWinner value (seen ++ c ∷ []) (step value w c)
step-IsWinner value seen w c h = elim (Bool-cases (claims_value value c)) [
  | inl t ↦ rw t (better-IsWinner value seen w c t h)
  | inr n ↦ rw n (skip-IsWinner value seen w c n h)
]

IsWinner-from :
    (value : String) (seen : List SyncClaim) (w : Option SyncClaim) (claims : List SyncClaim)
    → IsWinner value seen w
    → IsWinner value (seen ++ claims) (winner_from value w claims)
unfolding winner_from
IsWinner-from value seen w [] h = rw append-nil h
IsWinner-from value seen w (c ∷ claims) h =
    rw append_assoc at (
      IsWinner-from value (seen ++ c ∷ []) (step value w c) claims (step-IsWinner value seen w c h))

-- The loop over all the claims finds their winner.
pub winner_from-IsWinner :
    (value : String) (claims : List SyncClaim)
    → IsWinner value claims (winner_from value none claims)
winner_from-IsWinner value claims = IsWinner-from value [] none claims tt

-- The owner of a value: the resource itself where nobody has recorded a claim on the value, and
-- else the resource of a claimant before which no claimant stands.
pub owner_of-IsFirst :
    (self : SyncClaim) (others : List SyncClaim) (value : String)
    → (All (λ c. claims_value value c ≡ false) (self ∷ others)
        × (owner_of self others value ≡ self.resource))
      ⊎ ((w : SyncClaim) × IsWinner value (self ∷ others) (some w)
          × (owner_of self others value ≡ w.resource))
unfolding owner_of
owner_of-IsFirst self others value =
    split (winner_from value none (self ∷ others)) refl (winner_from-IsWinner value (self ∷ others))
  where
    split :
        (w : Option SyncClaim)
        → winner_from value none (self ∷ others) ≡ w
        → IsWinner value (self ∷ others) (winner_from value none (self ∷ others))
        → (All (λ c. claims_value value c ≡ false) (self ∷ others)
            × (owner_or_self self.resource (winner_from value none (self ∷ others))
                ≡ self.resource))
          ⊎ ((w : SyncClaim) × IsWinner value (self ∷ others) (some w)
              × (owner_or_self self.resource (winner_from value none (self ∷ others)) ≡ w.resource))
    split none e h = rw e (inl (rw e at h, refl))
    split (some w) e h = rw e (inr (w, rw e at h, refl))
