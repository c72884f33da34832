-- ===== src/Client/Shared.antt =====
-- What the operations of several clients have in common.
pub mod Guards
pub mod Owners
use froggit_go.Base.{
  String, pos, ◌<>◌, List, [], ◌∷◌, ◌++◌, ok, err, panic, errorf, error_text, wrapping, ◌==◌,
  if◌then◌else◌,
}
use froggit_go.Calls.{Calls, lift, as_result}
use froggit_go.Client.Types.{CommitInfo}
use froggit_go.Client.Params.{Order, Params, validate_parameters_not_blank}

-- `CommitInfo{}`
abbrev pub no_commit : CommitInfo
no_commit = record {
  hash = "";
  author_name = "";
  committer_name = "";
  url = "";
  timestamp = pos 0;
  message = "";
  parent_hashes = [];
  author_email = "";
}

-- The first of the commits, if there is one.
abbrev pub latest_commit : List CommitInfo → CommitInfo
latest_commit [] = no_commit
latest_commit (c ∷ cs) = c

-- `results[owner] = append(results[owner], path)`; the map is a list of its entries.
unfoldable pub append_to :
    String → String → List (String × List String) → List (String × List String)
append_to owner path [] = (owner, path ∷ []) ∷ []
append_to owner path ((o, paths) ∷ rest) =
    let rest' = append_to owner path rest in
    if o == owner then (o, paths ++ (path ∷ [])) ∷ rest else (o, paths) ∷ rest'

module _ {C : Type 0} where
  -- The checks at the head of an operation.
  unfoldable pub validated : Order → Params → Calls C (Unit {0})
  unfolding validate_parameters_not_blank
  validated order params = lift (as_result (validate_parameters_not_blank order params))

module _ {C A : Type 0} where
  -- `fmt.Errorf("...: %w", err)` of the error of a call.
  unfoldable pub wrapped : String → Calls C A → Calls C A
  wrapped text m log =
      let (r, log') = m log in
      (elim r [ ok a ↦ ok a | err e ↦ err (wrapping text e) | panic p ↦ panic p ], log')

  -- `fmt.Errorf("...%s", err.Error())` of the error of a call: the text, and not the error.
  unfoldable pub retold : String → Calls C A → Calls C A
  unfolding error_text
  retold text m log =
      let (r, log') = m log in
      (
        elim r [ ok a ↦ ok a | err e ↦ err (errorf (text <> error_text e)) | panic p ↦ panic p ],
        log',
      )

  -- The second call, if the first gave an error.
  unfoldable pub or_else : Calls C A → Calls C A → Calls C A
  or_else m k log =
      let (r, log') = m log in
      elim r [ ok a ↦ (ok a, log') | err e ↦ k log' | panic p ↦ (panic p, log') ]
