-- ===== src/Vcs/Removal.antt =====
-- The removal of directories (vcsutils/utils.go). The operating system decides what each call gives,
-- from all the calls before it.
use froggit_go.Base.{
  String, ◌≡◌, refl, ap, ◌∙◌, List, [], ◌∷◌, Result, ok, err, panic, Error, joined, All,
}
use froggit_go.Calls.{Calls, ◌>>=◌, ◌>>◌, pure, send, >>=-ok}
use froggit_go.Extract.Path.{join_path}

pub data Op : Type 0 where
  open_dir read_dir_names close_dir remove_all : String → Op

pub record Os : Type 0 where
  pub done : List Op → Op → Result (Unit {0})
  pub names : List Op → Op → Result (List String)

-- `errors.Join` of the result of a function and of the call that is deferred.
join_results : Result (Unit {0}) → Result (Unit {0}) → Result (Unit {0})
join_results (ok _) r = r
join_results (err d) (ok _) = err d
join_results (err d) (err e) = err (joined d e)
join_results (err d) (panic m) = panic m
join_results (panic m) _ = panic m

module _ (os : Os) (dir_path : String) where
  -- The loop over the names: it stops at the first error.
  remove_names : List String → Calls Op (Unit {0})
  unfolding join_path
  remove_names [] = pure tt
  remove_names (name ∷ names) =
      send os.done (remove_all (join_path (dir_path ∷ name ∷ []))) >> remove_names names

  contents : Calls Op (Unit {0})
  unfolding remove_names
  contents = do names ← send os.names (read_dir_names dir_path); remove_names names

  -- The directory is closed when the rest is done.
  closing : Calls Op (Unit {0}) → Calls Op (Unit {0})
  unfolding join_results
  closing m log =
      let (r, log') = m log in
      (join_results r (os.done log' (close_dir dir_path)), close_dir dir_path ∷ log')

  unfoldable pub remove_dir_contents : Calls Op (Unit {0})
  unfolding closing contents
  remove_dir_contents = send os.done (open_dir dir_path) >> closing contents

  -- The contents are removed if the directory cannot be.
  unfoldable pub remove_temp_dir : Calls Op (Unit {0})
  unfolding remove_dir_contents
  remove_temp_dir log =
      let call = remove_all dir_path in
      elim (os.done log call) [
        | ok done ↦ (ok tt, call ∷ log)
        | err e ↦ remove_dir_contents (call ∷ log)
        | panic m ↦ (panic m, call ∷ log)
      ]

  -- What is removed has a name of the list, within the directory.
  abbrev pub removals : List String → List Op → List Op
  removals [] log = log
  removals (name ∷ names) log = removals names (remove_all (join_path (dir_path ∷ name ∷ [])) ∷ log)

  -- The entry can be removed.
  abbrev pub IsRemovable : String → Type 0
  IsRemovable name =
      (l : List Op) → os.done l (remove_all (join_path (dir_path ∷ name ∷ []))) ≡ ok tt

  remove_names-removals :
      (names : List String) (log : List Op)
      → All IsRemovable names
      → remove_names names log ≡ (ok tt, removals names log)
  unfolding remove_names pure send
  remove_names-removals [] log h = refl
  remove_names-removals (name ∷ names) log h =
      let call = remove_all (join_path (dir_path ∷ name ∷ [])) in
      >>=-ok (send os.done call) (λ u. remove_names names) log (ap (λ r. (r, call ∷ log)) (h.0 log))
      ∙ remove_names-removals names (call ∷ log) h.1

  closing_ok :
      (m : Calls Op (Unit {0})) (log : List Op) {log' : List Op}
      → m log ≡ (ok tt, log')
      → os.done log' (close_dir dir_path) ≡ ok tt
      → closing m log ≡ (ok tt, close_dir dir_path ∷ log')
  unfolding closing join_results
  closing_ok m log {log' = log'} done closes =
      let close = close_dir dir_path in
      ap (λ x. (join_results x.0 (os.done x.1 close), close ∷ x.1)) done
      ∙ ap (λ r. (join_results (ok tt) r, close ∷ log')) closes

  contents-removals :
      (names : List String) (log : List Op)
      → os.names log (read_dir_names dir_path) ≡ ok names
      → All IsRemovable names
      → contents log ≡ (ok tt, removals names (read_dir_names dir_path ∷ log))
  unfolding contents send
  contents-removals names log reads removes =
      let call = read_dir_names dir_path in
      >>=-ok (send os.names call) remove_names log (ap (λ r. (r, call ∷ log)) reads)
      ∙ remove_names-removals names (call ∷ log) removes

  -- If the directory itself cannot be removed, but it can be opened, its names can be read, each entry
  -- can be removed, and it can be closed, then `RemoveTempDir` succeeds: it has removed each entry
  -- below the directory, in the order of the names, and has closed the directory.
  pub remove_temp_dir-removals :
      (e : Error) (names : List String) (log : List Op)
      → os.done log (remove_all dir_path) ≡ err e
      → ((l : List Op) → os.done l (open_dir dir_path) ≡ ok tt)
      → ((l : List Op) → os.names l (read_dir_names dir_path) ≡ ok names)
      → All IsRemovable names
      → ((l : List Op) → os.done l (close_dir dir_path) ≡ ok tt)
      → remove_temp_dir log ≡ (
        ok tt,
        close_dir dir_path
            ∷ removals names
                (read_dir_names dir_path ∷ open_dir dir_path ∷ remove_all dir_path ∷ log),
      )
  unfolding remove_temp_dir remove_dir_contents send
  remove_temp_dir-removals e names log locked opens reads removes closes =
      let first = remove_all dir_path ∷ log in
      let opened = open_dir dir_path ∷ first in
      rw (remove_temp_dir, locked)
        (>>=-ok (send os.done (open_dir dir_path)) (λ u. closing contents) first
            (ap (λ r. (r, opened)) (opens first))
          ∙ closing_ok contents opened (contents-removals names opened (reads opened) removes)
              (closes _))
