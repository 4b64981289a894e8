-- ===== src/Doctor/Run.antt =====
-- src/doctor.rs: `check_backend_keys` and `run`.
use tapwarden.Base.{
  ℕ, ◌+◌, Bool, true, false, Option, none, some, List, [], ◌∷◌, ◌++◌, Text, text, decimal, length,
  Result, ok, err, render, ◌==◌, if◌then◌else◌,
}
use tapwarden.Config.{Config}
use tapwarden.Doctor.{Report, fine, warn, fail, new, line, hint, print, header_line, verdict}
use tapwarden.Doctor.Checks.{
  DoctorHost, check_config, check_credentials, credentials_of, check_presence, check_agent,
}
use tapwarden.Doctor.Wiring.{check_ssh_wiring}
use tapwarden.Agent.Probe.{AgentHost, probe_keys}

-- `filter(is_ok).count()`
abbrev pub succeeded : List (ℕ × Result Text) → ℕ
succeeded [] = 0
succeeded ((id, ok comment) ∷ rest) = succeeded rest + 1
succeeded ((id, err e) ∷ rest) = succeeded rest

module _ (show_id : ℕ → Text) where
  unfoldable pub report_key : ℕ → Result Text → Report → Report
  report_key id (ok comment) r = line fine (text "key") (show_id id ++ text " -> " ++ comment) r
  report_key id (err e) r = line fail (text "key") (show_id id ++ text ": " ++ render e) r

  unfoldable pub report_keys : List (ℕ × Result Text) → Report → Report
  unfolding report_key
  report_keys [] r = r
  report_keys ((id, res) ∷ rest) r = report_keys rest (report_key id res r)

  unfoldable pub report_backend : Result (List (ℕ × Result Text)) → Report → Report
  unfolding report_keys
  report_backend (ok results) r =
      line (if succeeded results == length results then fine else fail) (text "backend")
        (text "fetched "
          ++ decimal (succeeded results)
          ++ text "/"
          ++ decimal (length results)
          ++ text " configured key(s)")
        (report_keys results r)
  report_backend (err e) r =
      hint (text "check credentials, server_endpoint, and network reachability")
        (line fail (text "backend") (render e) r)

abbrev pub concluded : Report → Result Text → Result (Unit {0}) × Report
concluded r (ok s) = (ok tt, print s r)
concluded r (err e) = (err e, r)

module _ {Entry E Device PublicKey R PrivateKey W : Type 0}
    (host : DoctorHost E Device PublicKey R W)
    (agent : AgentHost Entry Device PublicKey R PrivateKey W) (show_id : ℕ → Text) where
  unfoldable pub check_backend_keys : Config → Report → W → Report × W
  unfolding report_backend probe_keys
  check_backend_keys cfg r w =
      let (results, w') = probe_keys agent cfg w in (report_backend show_id results r, w')

  abbrev pub backend_of : Bool → Option Config → Report → W → Report × W
  backend_of true (some cfg) r w = check_backend_keys cfg r w
  backend_of true none r w =
      (line warn (text "backend") (text "skipped (config did not load)") r, w)
  backend_of false cfg r w = (
    print (10 ∷ text "(run with --check-backend to fetch keys from the backend end-to-end)") r,
    w,
  )

  -- All the checks, up to the verdict. The header is followed by an empty line.
  unfoldable pub examine : Option Text → Bool → W → Report × W
  unfolding print header_line check_config check_credentials check_presence check_agent
      check_ssh_wiring check_backend_keys
  examine path check_backend w =
      let (exe, w1) = host.current_exe w in
      let r1 = print (header_line host.version exe ++ (10 ∷ [])) new in
      let (cfg, (r2, w2)) = check_config host path r1 w1 in
      let (r4, w4) = check_presence host cfg (credentials_of host cfg r2) w2 in
      let (r5, w5) = check_agent host r4 w4 in
      let (r6, w6) = check_ssh_wiring host r5 w5 in
      let (r7, w7) = backend_of check_backend cfg r6 w6 in (print [] r7, w7)

  -- The result, and the report with all that was printed.
  unfoldable pub run : Option Text → Bool → W → (Result (Unit {0}) × Report) × W
  unfolding examine verdict
  run path check_backend w =
      let (r, w') = examine path check_backend w in (concluded r (verdict r.fails r.warns), w')
