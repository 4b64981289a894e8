-- ===== src/Tests/Diagnose.antt =====
-- src/doctor.rs at concrete inputs: a machine on which the agent runs, with a configuration of mode 0644.
use tapwarden.Base.{ℕ, ◌≡◌, ◌↔◌, true, false, none, some, [], ◌∷◌, text, ok, is_ok, any}
use tapwarden.Doctor.{new}
use tapwarden.Doctor.Checks.{DoctorHost}
use tapwarden.Doctor.Run.{examine, run}
use tapwarden.Doctor.Tally.{IsTally, is_fail}
use tapwarden.Doctor.Verdict.{examine-IsTally, run_ok_iff}
use tapwarden.Doctor.Wiring.{report_ssh_wiring, UsesSocket, report_ssh_wiring_iff}
use tapwarden.Authorizer.Biometric.{accepted}
use tapwarden.Tests.Start.{config_host, fido}
use tapwarden.Tests.Launch as Launch

abbrev machine : DoctorHost ℕ ℕ ℕ ℕ ℕ
machine = record {
  version = text "0.3.0";
  current_exe = λ w. (none, w);
  config = config_host;
  mode = λ path w. (ok 420, w);
  biometric = record {
    supported = λ w. (true, w);
    raise = λ reason w. (none, w);
    receive = λ timeout w. (accepted, w);
  };
  fido = fido;
  daemon = (Launch.host Launch.always).daemon;
  files = Launch.files;
  exists = λ path w. (true, w);
  connect = λ path w. (true, w);
  ssh_output = λ w. (some [], w);
  var_os = λ name. none;
}

run_ok_iff_example :
    (is_ok (run machine Launch.agent (λ id. []) (some (9 ∷ [])) true 0).0.0 ≡ true)
    ↔ (any is_fail (run machine Launch.agent (λ id. []) (some (9 ∷ [])) true 0).0.1.printed ≡ false)
run_ok_iff_example = run_ok_iff machine Launch.agent (λ id. []) (some (9 ∷ [])) true 0

examine-IsTally_example : IsTally (examine machine Launch.agent (λ id. []) (some (9 ∷ [])) true 0).0
examine-IsTally_example = examine-IsTally machine Launch.agent (λ id. []) (some (9 ∷ [])) true 0

report_ssh_wiring_iff_example :
    ((report_ssh_wiring (text "/run/a") (some (text "none")) (some (text "/run/a")) new).warns ≡ 0)
    ↔ UsesSocket (text "/run/a") (some (text "none")) (some (text "/run/a"))
report_ssh_wiring_iff_example =
    report_ssh_wiring_iff (text "/run/a") (some (text "none")) (some (text "/run/a")) new
