-- ===== src/Cli/Exit.antt =====
-- internal/cli/exit.go: the exit code of an error. Whether an error is one of the flag parser's types
-- or prints as an unknown command is asked of two tests, which are parameters.
pub mod Built
use incusos_builder.Base.{ℕ, Bool, ◌||◌, Option, none, some, if◌then◌else◌}
use incusos_builder.Errdefs.{Error, is, usage, config, decrypt, fetch, version_not_found, output}

module _ (is_flag_error is_unknown_command_error : Error → Bool) where
  -- `exitCode`.
  unfoldable pub exit_code : Option Error → ℕ
  exit_code none = 0
  exit_code (some e) =
      if is e usage || (is_flag_error e || is_unknown_command_error e)
      then 2
      else if is e config
      then 3
      else if is e decrypt
      then 4
      else if is e fetch || is e version_not_found
      then 5
      else if is e output
      then 6
      else 1
