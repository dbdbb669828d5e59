-- ===== src/Cli/Demo.antt =====
-- cli.py, `demo`. Which of the places exist is an argument, and so is what importlib makes of a script:
-- `none` if it has no spec or no loader for it, else how loading the script and calling its `main` ends.
use mcp_attest.Base.{Bool, Option, none, some, List, [], ◌∷◌, if◌then◌else◌}
use mcp_attest.Cli.{Ended, exited, exit_user_error}

-- The two candidates for examples/demo.py: from the repository's root and from the working directory.
pub data Place : Type 0 where
  repo_root : Place
  working_directory : Place

abbrev pub candidate_paths : List Place
candidate_paths = repo_root ∷ working_directory ∷ []

-- next((p for p in candidate_paths if p.exists()), None)
unfoldable pub first_existing : (Place → Bool) → List Place → Option Place
first_existing exists [] = none
first_existing exists (p ∷ ps) =
    let rest = first_existing exists ps in if exists p then some p else rest

abbrev pub end_demo_module : Option Ended → Ended
end_demo_module none = exited exit_user_error
end_demo_module (some ended) = ended

abbrev pub end_demo_path : (Place → Option Ended) → Option Place → Ended
end_demo_path load none = exited exit_user_error
end_demo_path load (some demo_path) = end_demo_module (load demo_path)

unfoldable pub demo : (Place → Bool) → (Place → Option Ended) → Ended
unfolding first_existing
demo exists load = end_demo_path load (first_existing exists candidate_paths)
