-- ===== src/Peer.antt =====
-- src/peer.rs: the description of the process behind a connection. The two kernel lookups are
-- parameters; a process id is not negative.
use tapwarden.Base.{ℕ, Option, none, some, ◌++◌, Text, text, decimal, ltb, if◌then◌else◌}

pub record Process : Type 0 where
  pub pid : ℕ
  pub path : Option Text

-- `Display`
abbrev pub named : Option Text → ℕ → Text
named (some path) pid = path ++ text " (pid " ++ decimal pid ++ text ")"
named none pid = text "pid " ++ decimal pid

unfoldable pub show : Process → Text
show p = named p.path p.pid

-- `parent.filter(|p| p.pid > 1)`
unfoldable pub not_launchd : Option Process → Option Process
not_launchd none = none
not_launchd (some p) = if ltb 1 p.pid then some p else none

abbrev pub started_by : Process → Option Process → Text
started_by requester none = show requester
started_by requester (some parent) = show requester ++ text ", started by " ++ show parent

unfoldable pub describe_with : Process → Option Process → Text
unfolding not_launchd
describe_with requester parent = started_by requester (not_launchd parent)

module _ {W : Type 0} (executable_path : ℕ → W → Option Text × W)
    (parent_pid : ℕ → W → Option ℕ × W) where
  unfoldable pub lookup : ℕ → W → Process × W
  lookup pid w = let (path, w') = executable_path pid w in (record { pid = pid; path = path }, w')

  unfoldable pub lookup_parent : Option ℕ × W → Option Process × W
  unfolding lookup
  lookup_parent (none, w) = (none, w)
  lookup_parent (some pid, w) = let (p, w') = lookup pid w in (some p, w')

  unfoldable pub describe : ℕ → W → Text × W
  unfolding lookup lookup_parent
  describe pid w =
      let (requester, w1) = lookup pid w in
      let (parent, w2) = lookup_parent (parent_pid pid w1) in (describe_with requester parent, w2)
