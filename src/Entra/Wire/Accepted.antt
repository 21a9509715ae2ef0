-- ===== src/Entra/Wire/Accepted.antt =====
-- Which group members the directory accepts.
use miniziti_operator.Prelude.{
  ◌≡◌, refl, String, true, false, List, [], ◌∷◌, map, ◌==◌, arith, All, eq_iff, Bool-cases, inl,
  inr, ◌⊎◌, if◌then◌else◌,
}
use miniziti_operator.Errors.{Result, ok, err}
use miniziti_operator.Entra.{User}
use miniziti_operator.Entra.Wire.{
  RawMail, omitted, no_text, null, mail, GraphMember, passed_over, user_with, accept_user, and_then,
  group_users,
}

user_with-name :
    (user : User) (raw : RawMail) (found : User)
    → user_with user raw ≡ ok found
    → (found.id ≡ user.id) × (found.user_principal_name ≡ user.user_principal_name)
unfolding user_with
user_with-name user omitted found h = cc
user_with-name user no_text found h = cc
user_with-name user null found h = ground arith
user_with-name user (mail m) found h = ground arith

-- What a user of an accepted answer has.
abbrev pub Complete : User → Type 0
Complete user = ((user.id == "") ≡ false) × ((user.user_principal_name == "") ≡ false)

accept_user-Complete :
    (member : GraphMember) (found : User)
    → (member.user.id == "") ≡ false
    → accept_user member ≡ ok found
    → ((member.type == "#microsoft.graph.user") ≡ true)
      × Complete found
      × (found.id ≡ member.user.id)
unfolding accept_user
accept_user-Complete member found named h =
    elim (Bool-cases (member.type == "#microsoft.graph.user")) [
      | inr n ↦ absurd (ground (n, arith))
      | inl e ↦ elim (Bool-cases (member.user.user_principal_name == "")) [
        | inl blank ↦ absurd (ground (e, blank, arith))
        | inr full ↦
            let made : user_with member.user member.raw_mail ≡ ok found =
              ground (e, full, h, arith) in
            let (id, name) = user_with-name member.user member.raw_mail found made in
            (e, rw (id, name) (named, full), id)
      ]
    ]

-- The members that Graph says are users.
abbrev pub users_among : List GraphMember → List GraphMember
users_among [] = []
users_among (member ∷ members) =
    let rest = users_among members in
    if member.type == "#microsoft.graph.user" then member ∷ rest else rest

-- Every member is a user, a group, a device, a service principal or a contact.
abbrev pub AreKnown : List GraphMember → Type 0
AreKnown = All (λ member.
    (member.type ≡ "#microsoft.graph.user")
    ⊎ (member.type ≡ "#microsoft.graph.group")
    ⊎ (member.type ≡ "#microsoft.graph.device")
    ⊎ (member.type ≡ "#microsoft.graph.servicePrincipal")
    ⊎ (member.type ≡ "#microsoft.graph.orgContact"))

-- A type that is passed over is known, and not that of users.
passed_over-known :
    (type : String)
    → passed_over type ≡ true
    → ((type ≡ "#microsoft.graph.group")
        ⊎ (type ≡ "#microsoft.graph.device")
        ⊎ (type ≡ "#microsoft.graph.servicePrincipal")
        ⊎ (type ≡ "#microsoft.graph.orgContact"))
      × ((type == "#microsoft.graph.user") ≡ false)
unfolding passed_over
passed_over-known type h = elim (Bool-cases (type == "#microsoft.graph.group")) [
  | inl e ↦ let same = (eq_iff type "#microsoft.graph.group").0 e in (inl same, rw same refl)
  | inr n ↦ elim (Bool-cases (type == "#microsoft.graph.device")) [
    | inl e ↦
        let same = (eq_iff type "#microsoft.graph.device").0 e in (inr (inl same), rw same refl)
    | inr m ↦ elim (Bool-cases (type == "#microsoft.graph.servicePrincipal")) [
      | inl e ↦
          let same = (eq_iff type "#microsoft.graph.servicePrincipal").0 e in
          (inr (inr (inl same)), rw same refl)
      | inr k ↦
          let last : (type == "#microsoft.graph.orgContact") ≡ true = ground (n, m, k, h, arith) in
          let same = (eq_iff type "#microsoft.graph.orgContact").0 last in
          (inr (inr (inr same)), rw same refl)
    ]
  ]
]

and_then-ok :
    {A : Type 0} (first : Result A) (rest : Result (List A)) (all : List A)
    → and_then first rest ≡ ok all
    → (a : A) × (others : List A) × (first ≡ ok a) × (rest ≡ ok others) × (all ≡ a ∷ others)
unfolding and_then
and_then-ok (err e) rest all h = cc
and_then-ok (ok a) (err e) all h = cc
and_then-ok (ok a) (ok others) all h = (a, others, refl, refl, cc)

-- An accepted list of members loses no user: each member is a user, a group, a device, a service
-- principal or a contact, and the result has one user for each member that is a user, in order, with
-- its id, which is not empty, and with a principal name.
pub group_users-Complete :
    (members : List GraphMember) (users : List User)
    → group_users members ≡ ok users
    → AreKnown members
      × All Complete users
      × (map (λ (u : User). u.id) users
          ≡ map (λ (m : GraphMember). m.user.id) (users_among members))
unfolding group_users
group_users-Complete [] [] h = (tt, tt, refl)
group_users-Complete [] (user ∷ users) h = cc
group_users-Complete (member ∷ members) users h = elim (Bool-cases (member.user.id == "")) [
  | inl blank ↦ absurd (ground (blank, h, arith))
  | inr named ↦ elim (Bool-cases (passed_over member.type)) [
    | inl e ↦
        let rest : group_users members ≡ ok users = ground (named, e, h, arith) in
        let (known, no_user) = passed_over-known member.type e in
        let (are, completes, ids) = group_users-Complete members users rest in
        rw no_user ((inr known, are), completes, ids)
    | inr n ↦
        let both : and_then (accept_user member) (group_users members) ≡ ok users =
          ground (named, n, h, arith) in
        let (user, others, one, more, all) =
          and_then-ok (accept_user member) (group_users members) users both in
        let (is_user, complete, id) = accept_user-Complete member user named one in
        let (are, completes, ids) = group_users-Complete members others more in
        let type = (eq_iff member.type "#microsoft.graph.user").0 is_user in
        rw (is_user, all) ((inl type, are), (complete, completes), ground (id, ids, arith))
  ]
]
