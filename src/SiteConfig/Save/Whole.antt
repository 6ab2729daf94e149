-- ===== src/SiteConfig/Save/Whole.antt =====
-- The settings file is whole at every moment of a save.
use raise_my_freedom.Common.{ℕ, ◌≡◌, ◌≢◌, ◌⊎◌, some, List, take}
use raise_my_freedom.SiteConfig.Config.{Config}
use raise_my_freedom.SiteConfig.Save.{Saved, saved, Step, renames_tmp, Files, run}

-- A step before the rename.
abbrev IsBefore : Step → Type 0
IsBefore renames_tmp = ⊥
IsBefore _ = Unit

-- A save as it is seen from the file: at any moment, also one at which the process dies, the file
-- is as it was or holds the new text; and once all is done, it holds the new text if the save
-- succeeded and is as it was if not.
pub record IsWhole (path text : List ℕ) (files : Files) (result : Saved × List Step) : Type 0 where
  pub any_moment :
      (n : ℕ)
      → (run path (take n result.1) files path ≡ files path)
        ⊎ (run path (take n result.1) files path ≡ some text)
  pub on_success : result.0 ≡ saved → run path result.1 files path ≡ some text
  pub on_failure : result.0 ≢ saved → run path result.1 files path ≡ files path
