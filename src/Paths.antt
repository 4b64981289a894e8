-- ===== src/Paths.antt =====
-- src/runtime_paths.rs: where the socket lives, and the lines that point a shell or ssh at it. The
-- file system is a record of calls on the world, and the home directory and the user's id are its
-- constants. A path is a text; `ensure_socket_dir` takes the parent of a path as a parameter.
pub mod Laws
pub mod Quoting
pub mod Compare
use tapwarden.Base.{
  ℕ, Bool, true, false, not, ◌&&◌, ◌||◌, Option, none, some, [], ◌∷◌, ◌++◌, Text, text, replace,
  is_empty, decimal, Result, ok, err, message, expect, bail_if, ◌==◌, if◌then◌else◌,
}
use tapwarden.Base.Action.{Action, ◌>>=◌, ◌>>◌, lift, map_result}
use tapwarden.Secret.Endpoint.{context_text}

pub record Metadata : Type 0 where
  pub is_file : Bool
  pub is_dir : Bool
  pub uid : ℕ

pub record Files (W : Type 0) : Type 0 where
  pub uid : ℕ
  pub home_dir : Option Text
  pub create_dir_all : Text → Action W (Unit {0})
  pub symlink_metadata : Text → Action W Metadata
  pub set_permissions : Text → ℕ → Action W (Unit {0})
  -- `Path::parent`
  pub parent : Text → Option Text

-- `join` of a relative path that is not empty.
unfoldable pub join_path : Text → Text → Text
join_path [] rest = rest
join_path (c ∷ base) rest = c ∷ (base ++ b'/' ∷ rest)

unfoldable pub identity_agent_line : Text → Text
identity_agent_line socket = text "IdentityAgent \"" ++ socket ++ text "\""

-- The path between single quotes, with each of its own closed, escaped and opened again.
unfoldable pub quoted : Text → Text
unfolding replace
quoted path = b'\'' ∷ (replace b'\'' (text "'\\''") path ++ b'\'' ∷ [])

unfoldable pub export_line : Text → Text
unfolding quoted
export_line socket = text "export SSH_AUTH_SOCK=" ++ quoted socket

module _ {W : Type 0} (files : Files W) where
  unfoldable pub refused : Text → Result Metadata → Result (Unit {0})
  refused path (err e) = ok tt
  refused path (ok meta) =
      bail_if (not meta.is_file) (
        (text "refusing to use " ++ path ++ text ": not a regular file (pre-planted symlink?)")
        ∷ [])

  unfoldable pub reject_symlink : Text → Action W (Unit {0})
  unfolding refused
  reject_symlink path = map_result (refused path) (files.symlink_metadata path)

  -- `!meta.is_dir() || meta.uid() != uid()`
  abbrev pub is_foreign : Metadata → Bool
  is_foreign meta = not meta.is_dir || not (meta.uid == files.uid)

  unfoldable pub runtime_dir_at : Text → Action W Text
  runtime_dir_at dir = do
    map_result (context_text (text "failed to create runtime dir " ++ dir))
        (files.create_dir_all dir)
    meta ←
        map_result (context_text (text "failed to stat runtime dir " ++ dir))
          (files.symlink_metadata dir)
    lift (
        bail_if (is_foreign meta) (
          (text "runtime dir "
            ++ dir
            ++ text " is not a directory owned by uid "
            ++ decimal files.uid)
          ∷ []))
    map_result (context_text (text "failed to chmod 0700 " ++ dir)) (files.set_permissions dir 448)
    lift (ok dir)

  unfoldable pub runtime_dir : Action W Text
  unfolding join_path runtime_dir_at
  runtime_dir = do
    home ← lift (expect "unable to determine home directory" files.home_dir)
    runtime_dir_at (join_path home (text "Library/Application Support/tapwarden"))

  unfoldable pub socket_path : Action W Text
  unfolding runtime_dir
  socket_path = do dir ← runtime_dir; lift (ok (join_path dir (text "agent.sock")))

  abbrev pub given : Option Text → Option Text
  given none = none
  given (some p) = if is_empty p then none else some p

  abbrev pub named : Text → Option Text → Result Text
  named socket none = err ((text "socket path " ++ socket ++ text " has no parent directory") ∷ [])
  named socket (some p) = ok p

  unfoldable pub ensure_socket_dir : Text → Action W (Unit {0})
  unfolding runtime_dir_at
  ensure_socket_dir socket = do
    parent ← lift (named socket (given (files.parent socket)))
    dir ← runtime_dir_at parent
    lift (ok tt)
