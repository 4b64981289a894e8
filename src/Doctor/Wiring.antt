-- ===== src/Doctor/Wiring.antt =====
-- src/doctor.rs: which agent ssh talks to.
use tapwarden.Base.{
  ◌≡◌, ◌≢◌, ◌↔◌, ◌⊎◌, inl, inr, refl, true, false, Option, none, some, List, [], ◌∷◌, ◌++◌, Text,
  text, text_eq, text_eq_iff, strip_prefix, Bytes, Result, ok, err, if◌then◌else◌, arith,
  Bool-cases, subst, ap,
}
use tapwarden.Base.Lines.{lines}
use tapwarden.Base.Lossy.{from_utf8_lossy}
use tapwarden.Paths.{socket_path, identity_agent_line}
use tapwarden.Paths.Compare.{path_eq}
use tapwarden.Doctor.{Report, fine, warn, line, hint, counted, print}
use tapwarden.Doctor.Checks.{DoctorHost}

abbrev or_later : Option Text → Option Text → Option Text
or_later none later = later
or_later (some s) later = some s

-- `find_map` of the prefix over the lines.
unfoldable pub find_agent : List Text → Option Text
unfolding strip_prefix
find_agent [] = none
find_agent (s ∷ rest) = or_later (strip_prefix (text "identityagent ") s) (find_agent rest)

unfoldable pub parse_identity_agent : Text → Option Text
unfolding find_agent lines
parse_identity_agent output = find_agent (lines output)

-- The agent that ssh uses and the name of what says so.
unfoldable pub effective_agent : Option Text → Option Text → Text × Option Text
effective_agent none sock = (text "SSH_AUTH_SOCK", sock)
effective_agent (some path) sock =
    if text_eq path (text "SSH_AUTH_SOCK")
    then (text "SSH_AUTH_SOCK", sock)
    else (if text_eq path (text "none")
        then (text "IdentityAgent", none)
        else (text "IdentityAgent", some path))

abbrev pub wiring_hint : Text → Report → Report
wiring_hint socket r =
    hint (text "set `" ++ identity_agent_line socket ++ text "` under `Host *` in ~/.ssh/config") r

unfoldable pub report_effective : Text → Text × Option Text → Report → Report
report_effective socket (via, some val) r =
    if path_eq val socket
    then line fine (text "ssh_wiring") (via ++ text " points at the tapwarden socket") r
    else wiring_hint socket
        (line warn (text "ssh_wiring") (via ++ text " points at another agent") r)
report_effective socket (via, none) r =
    wiring_hint socket (line warn (text "ssh_wiring") (text "ssh has no agent configured") r)

unfoldable pub report_ssh_wiring : Text → Option Text → Option Text → Report → Report
unfolding effective_agent report_effective
report_ssh_wiring socket identity_agent ssh_auth_sock r =
    report_effective socket (effective_agent identity_agent ssh_auth_sock) r

module _ {E Device PublicKey R W : Type 0} (host : DoctorHost E Device PublicKey R W) where
  abbrev agent_in : Option Bytes × W → Option Text × W
  agent_in (none, w) = (none, w)
  agent_in (some out, w) = (parse_identity_agent (from_utf8_lossy out), w)

  unfoldable pub ssh_identity_agent : W → Option Text × W
  unfolding parse_identity_agent from_utf8_lossy
  ssh_identity_agent w = agent_in (host.ssh_output w)

  abbrev pub wired : Report → Result Text × W → Report × W
  wired r (err e, w) = (r, w)
  wired r (ok socket, w) =
      let (agent, w') = ssh_identity_agent w in
      (report_ssh_wiring socket agent (host.var_os (text "SSH_AUTH_SOCK")) r, w')

  unfoldable pub check_ssh_wiring : Report → W → Report × W
  unfolding ssh_identity_agent report_ssh_wiring socket_path
  check_ssh_wiring r w = wired r (socket_path host.files w)

-- A path that ssh is given is the socket's.
abbrev pub Points : Text → Option Text → Type 0
Points socket agent = (val : Text) × (agent ≡ some val) × (path_eq val socket ≡ true)

abbrev pub Defers : Option Text → Type 0
Defers identity_agent = (identity_agent ≡ none) ⊎ (identity_agent ≡ some (text "SSH_AUTH_SOCK"))

-- `IdentityAgent` wins over `SSH_AUTH_SOCK`, except for its two keywords: `SSH_AUTH_SOCK` defers to the
-- environment and `none` disables agents.
abbrev pub UsesSocket : Text → Option Text → Option Text → Type 0
UsesSocket socket identity_agent ssh_auth_sock =
    (Defers identity_agent × Points socket ssh_auth_sock)
    ⊎ ((path : Text) × (identity_agent ≡ some path)
        × (path ≢ text "SSH_AUTH_SOCK")
        × (path ≢ text "none")
        × (path_eq path socket ≡ true))

report_effective_iff :
    (socket : Text) (agent : Text × Option Text) (r : Report)
    → ((report_effective socket agent r).warns ≡ r.warns) ↔ Points socket agent.1
unfolding report_effective line hint print counted
report_effective_iff socket (via, none) r = (λ h. absurd (omega arith), λ (v, e, k). cc)
report_effective_iff socket (via, some val) r = elim (Bool-cases (path_eq val socket)) [
  | inl same ↦ (λ h. (val, refl, same), λ p. rw same refl)
  | inr other ↦ (λ h. absurd (omega (arith, rw other at h)), λ (v, e, k). absurd (cc))
]

differs : (s t : Text) → text_eq s t ≡ false → s ≢ t
differs s t h e = let same = (text_eq_iff s t).1 e in absurd (cc)

not_deferred : (path : Text) → text_eq path (text "SSH_AUTH_SOCK") ≡ false → ¬ Defers (some path)
not_deferred path h (inl e) = absurd (cc)
not_deferred path h (inr e) = differs path (text "SSH_AUTH_SOCK") h (cc)

effective_agent_iff :
    (socket : Text) (identity_agent ssh_auth_sock : Option Text)
    → Points socket (effective_agent identity_agent ssh_auth_sock).1
      ↔ UsesSocket socket identity_agent ssh_auth_sock
unfolding effective_agent
effective_agent_iff socket none sock =
    (λ p. inl (inl refl, p), λ u. elim u [ inl (d, p) ↦ p | inr (path, e, a, b, k) ↦ absurd (cc) ])
effective_agent_iff socket (some path) sock =
    elim (Bool-cases (text_eq path (text "SSH_AUTH_SOCK"))) [
      | inl defers ↦
          let same = (text_eq_iff path (text "SSH_AUTH_SOCK")).0 defers in
          (
            λ p. inl (inr (ap some same), rw defers at p),
            λ u. elim u [ inl (d, p) ↦ rw defers p | inr (q, e, a, b, k) ↦ absurd (a (cc)) ],
          )
      | inr names ↦ elim (Bool-cases (text_eq path (text "none"))) [
        | inl off ↦
            let same = (text_eq_iff path (text "none")).0 off in
            (
              λ p. absurd (let (v, e, k) = rw (names, off) at p in cc),
              λ u. elim u [
                | inl (d, p) ↦ absurd (not_deferred path names d)
                | inr (q, e, a, b, k) ↦ absurd (b (cc))
              ],
            )
        | inr other ↦ (
          λ p.
              let (v, e, k) = rw (names, other) at p in
              inr (
                path,
                refl,
                differs path (text "SSH_AUTH_SOCK") names,
                differs path (text "none") other,
                subst (λ x. path_eq x socket ≡ true) (cc) k,
              ),
          λ u. elim u [
            | inl (d, p) ↦ absurd (not_deferred path names d)
            | inr (q, e, a, b, k) ↦ rw (names, other) (path, refl, cc)
          ],
        )
      ]
    ]

-- The check of the wiring gives no warning exactly if the agent that ssh would talk to is the socket's,
-- under the rules for `IdentityAgent` and its two keywords.
pub report_ssh_wiring_iff :
    (socket : Text) (identity_agent ssh_auth_sock : Option Text) (r : Report)
    → ((report_ssh_wiring socket identity_agent ssh_auth_sock r).warns ≡ r.warns)
      ↔ UsesSocket socket identity_agent ssh_auth_sock
unfolding report_ssh_wiring
report_ssh_wiring_iff socket identity_agent ssh_auth_sock r =
    let (a, b) = report_effective_iff socket (effective_agent identity_agent ssh_auth_sock) r in
    let (c, d) = effective_agent_iff socket identity_agent ssh_auth_sock in
    (λ h. c (a h), λ u. b (d u))
