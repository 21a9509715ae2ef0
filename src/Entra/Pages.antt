-- ===== src/Entra/Pages.antt =====
-- internal/entra/paging.go: readPages. The request for a page is a parameter, `fetch`; the number of
-- rounds of the loop is bounded by fuel, and `none` says that it did not suffice.
pub mod Ends
use miniziti_operator.Prelude.{
  ℕ, zero, suc, String, Bool, true, false, Option, none, some, List, [], ◌∷◌, ◌++◌, ◌==◌,
  if◌then◌else◌,
}
use miniziti_operator.Strings.{contains}
use miniziti_operator.Errors.{Err, Result, ok, err, text}

-- A page: its values, `none` if the answer has none, and the next endpoint, empty at the end.
pub record Page (T : Type 0) : Type 0 where
  pub value : Option (List T)
  pub next : String

-- One round of the loop for an endpoint that is not empty; `rest` is the loop from the next one on.
pub read_page :
    {T : Type 0}
    → Result (Page T)
    → List T
    → (List T → String → Option (Result (List T)))
    → Option (Result (List T))
read_page (err e) result rest = some (err e)
read_page (ok page) result rest = elim page.value [
  | none ↦ some (err (text "graph page has no value array"))
  | some values ↦ rest (result ++ values) page.next
]

-- readPages, with the endpoints that were seen and the result so far.
unfoldable pub read_pages :
    {T : Type 0}
    → ℕ
    → (String → Result (Page T))
    → List String
    → List T
    → String
    → Option (Result (List T))
unfolding read_page contains
read_pages zero fetch seen result endpoint = none
read_pages (suc fuel) fetch seen result endpoint =
    let further = read_page (fetch endpoint) result (read_pages fuel fetch (endpoint ∷ seen)) in
    if endpoint == ""
    then some (ok result)
    else if contains seen endpoint
    then some (err (text "graph pagination cycle"))
    else further
