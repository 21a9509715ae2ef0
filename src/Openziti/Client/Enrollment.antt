-- ===== src/Openziti/Client/Enrollment.antt =====
-- GetEnrollmentJWT of internal/openziti/client/client.go: the token of an identity's enrolment, which is
-- created where there is none.
use miniziti_operator.Prelude.{
  String, not, ◌&&◌, Option, none, some, List, [], ◌∷◌, ◌==◌, if◌then◌else◌,
}
use miniziti_operator.Strings.{CaseTables, trim_space, equal_fold}
use miniziti_operator.Errors.{Err, Result, ok, err, text, wrapped}
use miniziti_operator.Calls.{pure, perform, attempt, then_do, handle}
use miniziti_operator.Openziti.Rest.{EnrollmentDetail}
use miniziti_operator.Openziti.Client.{
  Api, list_enrollments, create_enrollment, detail_enrollment, Call, request, Env, Exec,
  is_status_code, use_authenticated_client,
}
use miniziti_operator.Openziti.Client.Objects.{extract_created_id}

-- enrollmentJWTFromList; an item that is nil has no method.
unfoldable pub enrollment_jwt_from_list : CaseTables → List EnrollmentDetail → String
unfolding trim_space equal_fold
enrollment_jwt_from_list u [] = ""
enrollment_jwt_from_list u (item ∷ items) =
    let rest = enrollment_jwt_from_list u items in
    elim item.method [
      | none ↦ rest
      | some method ↦
          if equal_fold u (trim_space method) "ott" && not (trim_space item.jwt == "")
          then trim_space item.jwt
          else rest
    ]

-- The answers that concern enrolments; `none` is a response without a payload.
pub record Enrollments : Type 0 where
  pub tables : CaseTables
  pub listed : Api → List Call → String → Result (Option (List EnrollmentDetail))
  pub created : Api → List Call → String → Result (Option String)
  pub detail : Api → List Call → String → Result (Option EnrollmentDetail)

abbrev jwt_in : CaseTables → Option (List EnrollmentDetail) → String
jwt_in u none = ""
jwt_in u (some items) = enrollment_jwt_from_list u items

module _ (e : Enrollments) (id : String) (api : Api) where
  abbrev get_enrollments : Exec (Result (Option (List EnrollmentDetail)))
  get_enrollments = perform (request api (list_enrollments id)) (λ t. e.listed api t id)

  -- createOTTEnrollmentWithAPI
  unfoldable pub create_ott_enrollment : Exec (Result (Option EnrollmentDetail))
  unfolding extract_created_id
  create_ott_enrollment =
      attempt (perform (request api (create_enrollment id)) (λ t. e.created api t id))
        (λ x. err (wrapped "create ott enrollment" x))
        λ location. handle (extract_created_id location) err λ enrollment.
          attempt
            (perform (request api (detail_enrollment enrollment)) (λ t. e.detail api t enrollment))
            (λ x. err (wrapped "get ott enrollment" x)) (λ found. pure (ok found))

  -- What a list without a token means after a creation that failed with `x`.
  abbrev jwt_or : Err → Option (List EnrollmentDetail) → Result String
  jwt_or x items =
      if not (trim_space (jwt_in e.tables items) == "") then ok (jwt_in e.tables items) else err x

  -- A conflict: another caller has created the enrolment.
  unfoldable pub after_failed_create : Err → Exec (Result String)
  unfolding is_status_code trim_space enrollment_jwt_from_list
  after_failed_create x =
      if is_status_code 409 x
      then attempt get_enrollments (λ y. err (wrapped "list identity enrollments" y))
          (λ items. pure (jwt_or x items))
      else pure (err x)

  abbrev no_jwt : Err
  no_jwt = text "identity has no enrollment jwt"

  unfoldable pub after_create : Result (Option EnrollmentDetail) → Exec (Result String)
  unfolding after_failed_create trim_space
  after_create (err x) = after_failed_create x
  after_create (ok none) = pure (err no_jwt)
  after_create (ok (some detail)) =
      pure (if not (trim_space detail.jwt == "") then ok (trim_space detail.jwt) else err no_jwt)

  unfoldable pub jwt_of : Exec (Result String)
  unfolding after_create create_ott_enrollment trim_space enrollment_jwt_from_list
  jwt_of =
      attempt get_enrollments (λ x. err (wrapped "list identity enrollments" x))
        λ items.
          if not (trim_space (jwt_in e.tables items) == "")
          then pure (ok (jwt_in e.tables items))
          else then_do create_ott_enrollment after_create

-- GetEnrollmentJWT
unfoldable pub get_enrollment_jwt : Env → Enrollments → String → Exec (Result String)
unfolding jwt_of use_authenticated_client
get_enrollment_jwt env e id = use_authenticated_client env (jwt_of e id)
