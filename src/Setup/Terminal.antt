-- ===== src/Setup/Terminal.antt =====
-- src/setup.rs: `prompt`. The terminal is a record of calls on the world.
use tapwarden.Base.{Text, trim, is_empty, ok, message, context, bail_if}
use tapwarden.Base.Action.{Action, ◌>>=◌, ◌>>◌, lift, map_result}

pub record Terminal (W : Type 0) : Type 0 where
  -- `println!` and `print!`
  pub println : Text → W → W
  pub print : Text → W → W
  pub flush : Action W (Unit {0})
  -- the line with its ending; nothing at the end of the input
  pub read_line : Action W Text
  -- `rpassword::prompt_password`
  pub prompt_password : Text → Action W Text

module _ {W : Type 0} (terminal : Terminal W) where
  abbrev pub say : Text → Action W (Unit {0})
  say s w = (ok tt, terminal.println s w)

  abbrev pub show_label : Text → Action W (Unit {0})
  show_label label w = (ok tt, terminal.print label w)

  unfoldable pub prompt : Text → Action W Text
  prompt label = do
    show_label label
    map_result (context "failed to flush stdout") terminal.flush
    line ← map_result (context "failed to read input") terminal.read_line
    lift (bail_if (is_empty line) (message "input closed"))
    lift (ok (trim line))
