-- ===== src/Openziti/Client/Objects/Fallback.antt =====
-- What the management client makes of an object that is not in the backend.
use miniziti_operator.Prelude.{◌≡◌, true, List, [], ◌∷◌, ◌⊎◌}
use miniziti_operator.Errors.{Err, Result, ok, err}
use miniziti_operator.Openziti.Rest.{Body}
use miniziti_operator.Openziti.Client.{
  Api, create, Call, request, Env, Exec, should_reauthenticate, try_again,
}
use miniziti_operator.Openziti.Client.Objects.{Endpoint}

-- The bodies of the creations, the latest first.
abbrev pub creations : List Call → List Body
creations [] = []
creations (request _ (create body) ∷ t) = body ∷ creations t
creations (_ ∷ t) = creations t

module _ (env : Env) where
  -- No creation of the body, one, or two: then the backend rejected the first run of the function, and
  -- the second try, with a renewed session, is the end.
  abbrev pub Created :
      {A : Type 0} → Body → (Api → Exec (Result A)) → List Call → List Call → Type 0
  Created body fn t t' =
      (creations t' ≡ creations t)
      ⊎ (creations t' ≡ body ∷ creations t)
      ⊎ ((api : Api) × (s : List Call) × (x : Err) × ((fn api s).0 ≡ err x)
          × (should_reauthenticate x ≡ true)
          × ((try_again env fn (fn api s).1).1 ≡ t')
          × (creations t' ≡ body ∷ body ∷ creations t))

module _ {D O : Type 0} (env : Env) (e : Endpoint D O) where
  -- The body of a creation of the object, if it takes no calls to make it.
  abbrev pub CreatedAs : O → Body → Type 0
  CreatedAs object body =
      (api : Api) (t : List Call) → e.create_body env api object t ≡ (ok body, t)
