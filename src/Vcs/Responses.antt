-- ===== src/Vcs/Responses.antt =====
-- The check of a response's status code (vcsutils/utils.go).
use froggit_go.Base.{
  ℕ, String, ◌<>◌, Bool, false, ◌||◌, Option, none, some, List, [], ◌∷◌, Result, ok, err, panic,
  Error, errorf, nat_eq, if◌then◌else◌, ◌==◌,
}

-- `*http.Response`, by what is read of it.
pub record Response : Type 0 where
  pub status : String
  pub status_code : ℕ
  pub body : Result String

-- `json.Indent`, and the text of `fmt.Errorf` for a format without arguments.
pub record Texts : Type 0 where
  pub indent : String → Result String
  pub format : String → String

unfoldable pub contains : List ℕ → ℕ → Bool
contains [] c = false
contains (d ∷ ds) c = nat_eq d c || contains ds c

module _ (x : Texts) where
  -- `generateErrorString`: an empty body stays empty, and one that is no JSON stays as it is.
  unfoldable pub generate_error_string : String → String
  generate_error_string body =
      if body == "" then "" else elim (x.indent body) [ ok t ↦ t | err e ↦ body | panic m ↦ body ]

  -- `GenerateResponseError`
  unfoldable pub generate_response_error : String → String → Error
  generate_response_error status body =
      let response_err_string = "server response: " <> status in
      errorf (
        x.format
          (if body == "" then response_err_string else response_err_string <> ("\n" <> body)))

  -- `CheckResponseStatusWithBody`; there is nothing to check in a nil response.
  unfoldable pub check_response_status_with_body : Option Response → List ℕ → Result (Unit {0})
  unfolding contains generate_error_string generate_response_error
  check_response_status_with_body none expected = ok tt
  check_response_status_with_body (some r) expected =
      if contains expected r.status_code then ok tt else elim r.body [
        | ok body ↦ err (generate_response_error r.status (generate_error_string body))
        | err e ↦ err e
        | panic m ↦ panic m
      ]
