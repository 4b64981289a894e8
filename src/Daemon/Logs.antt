-- ===== src/Daemon/Logs.antt =====
-- src/daemon.rs: `logs`, which shows the end of the agent's log. An open file is a handle of any type.
use tapwarden.Base.{
  ℕ, ◌-◌, ◌*◌, ◌≤◌, ◌≡◌, refl, false, List, [], ◌∷◌, ◌++◌, Text, text, Bytes, ok, err, Error,
  context, length, drop, take, length-drop, take-append-drop, sym, arith,
}
use tapwarden.Base.Lines.{lines}
use tapwarden.Base.Lossy.{from_utf8_lossy}
use tapwarden.Base.Action.{Action, ◌>>=◌, ◌>>◌, lift, map_result}
use tapwarden.Secret.Endpoint.{context_text}
use tapwarden.Paths.{Files, Metadata, refused, reject_symlink}
use tapwarden.Daemon.Launchd.{Launchd, DaemonHost, real}

abbrev pub log_tail_lines : ℕ
log_tail_lines = 50

abbrev pub log_read_cap : ℕ
log_read_cap = 1024 * 1024

pub record LogHost (Handle W : Type 0) : Type 0 where
  pub daemon : DaemonHost W
  pub files : Files W
  pub open_file : Text → Action W Handle
  -- `metadata().len()`, `seek(SeekFrom::Start(n))` and `read_to_end`
  pub len : Handle → Action W ℕ
  pub seek : Handle → ℕ → Action W (Unit {0})
  pub read_to_end : Handle → Action W Bytes

unfoldable pub tail : Text → ℕ → List Text
unfolding lines
tail contents n = drop (length (lines contents) - n) (lines contents)

module _ {Handle W : Type 0} (host : LogHost Handle W) where
  unfoldable pub read_tail : Text → ℕ → Action W Text
  unfolding from_utf8_lossy
  read_tail path cap = do
    file ←
        map_result
          (context_text (
            text "no log file at "
            ++ path
            ++ text " — has the agent been started with `tapwarden start`?"))
          (host.open_file path)
    len ← map_result (context "failed to stat the log file") (host.len file)
    map_result (context "failed to seek in the log file") (host.seek file (len - cap))
    bytes ← map_result (context "failed to read the log file") (host.read_to_end file)
    lift (ok (from_utf8_lossy bytes))

  abbrev say : Text → W → W
  say = host.daemon.print

  abbrev say_all : List Text → W → W
  say_all [] w = w
  say_all (s ∷ rest) w = say_all rest (say s w)

  abbrev shown : Text → Text → Action W (Unit {0})
  shown path contents w = (
    ok tt,
    say (text "Follow live: tail -f " ++ path) (say [] (say_all (tail contents log_tail_lines) w)),
  )

  unfoldable pub logs_in : Launchd W → Action W (Unit {0})
  unfolding reject_symlink read_tail tail
  logs_in launchd = do
    reject_symlink host.files launchd.log
    contents ← read_tail launchd.log log_read_cap
    shown launchd.log contents

  unfoldable pub logs : Action W (Unit {0})
  unfolding real logs_in
  logs = do launchd ← lift (real host.daemon); logs_in launchd

  -- A log that is seen to be no regular file, such as a link, is not opened: the look at it is all
  -- that happens.
  pub logs_in_symlink :
      (launchd : Launchd W) (meta : Metadata) (w w' : W)
      → host.files.symlink_metadata launchd.log w ≡ (ok meta, w')
      → meta.is_file ≡ false
      → (e : Error) × (logs_in launchd w ≡ (err e, w'))
  unfolding logs_in refused
  logs_in_symlink launchd meta w w' e h = (
    (text "refusing to use " ++ launchd.log ++ text ": not a regular file (pre-planted symlink?)")
        ∷ [],
    rw (e, h) refl,
  )

  -- Where a handle stands for a file with these bytes, at a position: its length is theirs, a seek
  -- sets the position, and reading to the end gives what follows it.
  pub record IsFile (file : Handle) (bytes : Bytes) (w : W) : Type 0 where
    pub stat : W
    pub sought : W
    pub rest : W
    pub len_ok : host.len file w ≡ (ok (length bytes), stat)
    pub seek_ok : host.seek file (length bytes - log_read_cap) stat ≡ (ok tt, sought)
    pub read_ok :
        host.read_to_end file sought ≡ (ok (drop (length bytes - log_read_cap) bytes), rest)

  -- What is read of a log file is its last mebibyte, decoded, and the whole of it if it is
  -- shorter: it has at most that many bytes and the file ends with them.
  pub read_tail_lem :
      (path : Text) (file : Handle) (bytes : Bytes) (w w1 : W)
      → host.open_file path w ≡ (ok file, w1)
      → (view : IsFile file bytes w1)
      → (front back : Bytes) × (bytes ≡ front ++ back)
        × (length back ≤ log_read_cap)
        × (read_tail path log_read_cap w ≡ (ok (from_utf8_lossy back), view.rest))
  unfolding read_tail
  read_tail_lem path file bytes w w1 e view = (
    take (length bytes - log_read_cap) bytes,
    drop (length bytes - log_read_cap) bytes,
    sym (take-append-drop (length bytes - log_read_cap) bytes),
    omega (arith, length-drop (length bytes - log_read_cap) bytes),
    rw (e, view.len_ok, view.seek_ok, view.read_ok) refl,
  )

-- The lines shown are the last ones, as many as asked for if there are so many.
pub tail_lem :
    (contents : Text) (n : ℕ)
    → (front : List Text) × (lines contents ≡ front ++ tail contents n)
      × (length (tail contents n) ≡ length (lines contents) - (length (lines contents) - n))
unfolding tail
tail_lem contents n = (
  take (length (lines contents) - n) (lines contents),
  sym (take-append-drop (length (lines contents) - n) (lines contents)),
  length-drop (length (lines contents) - n) (lines contents),
)
