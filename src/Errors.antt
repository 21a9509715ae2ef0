-- ===== src/Errors.antt =====
-- Go error values, as far as the program tells them apart, and results of fallible code.
use miniziti_operator.Prelude.{
  ℕ, String, ◌≡◌, refl, ◌⊎◌, inl, inr, Bool, true, false, ◌||◌, ◌==◌, leb, eqb, Option, none, some,
}

-- entra.GraphError; a duration is counted in nanoseconds and is never negative here.
pub record GraphError : Type 0 where
  pub status_code : ℕ
  pub code : String
  pub message : String
  pub retry_after : ℕ

-- entra.TokenError
pub record TokenError : Type 0 where
  pub status_code : ℕ
  pub code : String
  pub message : String
  pub retry_after : ℕ
  pub transient : Bool

-- `text` is errors.New; `wrapped` is fmt.Errorf with a %w, the text in front first; `not_found` is an
-- error for which apierrors.IsNotFound holds; `response` is an API error that has a Code(); `panicked`
-- stands for the panic of a nil dereference.
pub data Err : Type 0 where
  text : String → Err
  wrapped : String → Err → Err
  canceled : Err
  deadline_exceeded : Err
  no_user_roles : Err
  service_principal_not_found : Err
  limited_user_data : Err
  -- the numbers of identities and services that a policy waits for
  waiting_for_backend_ids : ℕ → ℕ → Err
  not_found : String → Err
  response : ℕ → Err
  graph : GraphError → Err
  token : TokenError → Err
  panicked : Err

pub data Result {ℓ} (A : Type ℓ) : Type ℓ where
  ok : A → Result A
  err : Err → Result A

-- errors.Is(err, context.Canceled) || errors.Is(err, context.DeadlineExceeded)
unfoldable pub is_context_error : Err → Bool
is_context_error canceled = true
is_context_error deadline_exceeded = true
is_context_error (wrapped _ e) = is_context_error e
is_context_error _ = false

-- errors.As(err, &graphError)
unfoldable pub as_graph : Err → Option GraphError
as_graph (graph e) = some e
as_graph (wrapped _ e) = as_graph e
as_graph _ = none

-- errors.As(err, &tokenError)
unfoldable pub as_token : Err → Option TokenError
as_token (token e) = some e
as_token (wrapped _ e) = as_token e
as_token _ = none

-- TokenError.Transient
unfoldable pub is_transient : TokenError → Bool
is_transient e =
    e.transient
    || (eqb e.status_code 429
        || (leb 500 e.status_code
            || (e.code == "temporarily_unavailable" || e.code == "server_error")))

-- errors.Is(err, ErrServicePrincipalNotFound), or ErrLimitedUserData, or ErrNoUserRoles
unfoldable pub is_directory_content_error : Err → Bool
is_directory_content_error service_principal_not_found = true
is_directory_content_error limited_user_data = true
is_directory_content_error no_user_roles = true
is_directory_content_error (wrapped _ e) = is_directory_content_error e
is_directory_content_error _ = false

-- apierrors.IsNotFound
unfoldable pub is_not_found : Err → Bool
is_not_found (not_found _) = true
is_not_found (wrapped _ e) = is_not_found e
is_not_found _ = false

-- IgnoreNotFound
unfoldable pub ignore_not_found : Err → Option Err
unfolding is_not_found
ignore_not_found e = elim (is_not_found e) [ true ↦ none | false ↦ some e ]

pub Result-cases {ℓ} :
    {A : Type ℓ} (r : Result A) → ((a : A) × (r ≡ ok a)) ⊎ ((e : Err) × (r ≡ err e))
Result-cases (ok a) = inl (a, refl)
Result-cases (err e) = inr (e, refl)
