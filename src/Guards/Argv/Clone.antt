-- ===== src/Guards/Argv/Clone.antt =====
-- What is asked of git clone (src/assistant/bridge/hooks.py).
use xone_assistant.Prelude.{List, [], ◌∷◌, ◌≡◌, refl, Text}
use xone_assistant.Guards.{Files}
use xone_assistant.Guards.Argv.{validate_git_clone_argv}

-- Only the five words up to the destination are looked at: whatever stands behind it, the verdict
-- is the same.
pub validate_git_clone_argv_tail :
    (files : Files) (git clone depth url dest : Text) (more : List Text)
    → validate_git_clone_argv files (git ∷ clone ∷ depth ∷ url ∷ dest ∷ more)
      ≡ validate_git_clone_argv files (git ∷ clone ∷ depth ∷ url ∷ dest ∷ [])
unfolding validate_git_clone_argv
validate_git_clone_argv_tail files git clone depth url dest more = refl
