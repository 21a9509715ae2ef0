-- ===== src/Examples/DirectoryRuns.antt =====
-- Runs of the directory's checks.
use miniziti_operator.Prelude.{
  String, ◌≡◌, refl, some, List, [], ◌∷◌, ◌==◌, map, All, if◌then◌else◌,
}
use miniziti_operator.Strings.{contains}
use miniziti_operator.Errors.{Result, ok}
use miniziti_operator.Entra.{User}
use miniziti_operator.Entra.Pages.{Page, read_pages}
use miniziti_operator.Entra.Pages.Ends.{read_pages-terminates}
use miniziti_operator.Entra.Wire.{
  GraphMember, mail, null, group_users, passed_over, accept_user, user_with, and_then,
}
use miniziti_operator.Entra.Wire.Accepted.{AreKnown, users_among, Complete, group_users-Complete}
use miniziti_operator.Examples.{ann}

-- A user and a device.
abbrev members : List GraphMember
members =
    (record {
      user = record ann { mail = "" };
      type = "#microsoft.graph.user";
      raw_mail = mail "a@x";
    })
    ∷ (record {
      user = record ann { id = "d1" };
      type = "#microsoft.graph.device";
      raw_mail = null;
    })
    ∷ []

group_users-Complete_example :
    AreKnown members
    × All Complete (ann ∷ [])
    × (map (λ (u : User). u.id) (ann ∷ [])
        ≡ map (λ (m : GraphMember). m.user.id) (users_among members))
unfolding group_users passed_over accept_user user_with and_then
group_users-Complete_example = group_users-Complete members (ann ∷ []) refl

-- Two pages that lead to each other.
abbrev fetch : String → Result (Page String)
fetch endpoint =
    if endpoint == "p1"
    then ok (record { value = some ("a" ∷ []); next = "p2" })
    else ok (record { value = some ("b" ∷ []); next = "p1" })

read_pages-terminates_example :
    (r : Result (List String)) × (read_pages 3 fetch [] [] "p1" ≡ some r)
unfolding contains
read_pages-terminates_example =
    read_pages-terminates fetch ("p1" ∷ "p2" ∷ []) "p1" (refl, (refl, tt)) refl
