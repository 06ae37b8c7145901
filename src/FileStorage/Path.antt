-- ===== src/FileStorage/Path.antt =====
-- storage.go: NewFileStorage, which finds the path of a file store.
--
-- os.UserConfigDir and path/filepath are the parameter `Paths`.
use stripelink.Prelude.{String, ◌==◌, List, [], ◌∷◌, if◌then◌else◌}
use stripelink.Errors.{wrap, Result, ok, err, ◌>>=◌}

pub record Paths : Type 0 where
  -- os.UserConfigDir
  pub user_config_dir : Result String
  -- filepath.Join, Abs and Clean
  pub join : List String → String
  pub abs : String → Result String
  pub clean : String → String

-- fmt.Errorf("<message>: %w", err)
abbrev pub describe : {A : Type 0} → String → Result A → Result A
describe message (ok a) = ok a
describe message (err e) = err (wrap message e)

module _ (paths : Paths) where
  unfoldable pub default_path : Result String
  default_path = do
    root ← describe "resolve user config directory" paths.user_config_dir
    ok (paths.join (root ∷ "stripelink" ∷ "auth.json" ∷ []))

  -- The store's path.
  unfoldable pub new_file_storage : String → Result String
  new_file_storage path = do
    chosen ← (if path == "" then default_path else ok path)
    absolute ← describe "resolve auth storage path" (paths.abs chosen)
    ok (paths.clean absolute)
