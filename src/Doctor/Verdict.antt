-- ===== src/Doctor/Verdict.antt =====
-- What the exit status of doctor says of the report that it printed.
use tapwarden.Base.{
  ℕ, ◌≡◌, ◌↔◌, refl, ◌∙◌, Bool, true, false, Option, none, some, List, [], ◌∷◌, ◌++◌, Text, text,
  starts_with, strip_prefix, is_ok, any, arith, Bool-cases, inl, inr, ltb, ◌||◌,
}
use tapwarden.Doctor.{Report, new, print, header_line, verdict}
use tapwarden.Doctor.Checks.{DoctorHost, check_config, credentials_of, check_presence, check_agent}
use tapwarden.Doctor.Wiring.{check_ssh_wiring}
use tapwarden.Doctor.Run.{backend_of, examine, run, concluded}
use tapwarden.Doctor.Tally.{count, is_fail, IsTally, print-IsTally, new-IsTally}
use tapwarden.Doctor.Counted.{
  check_config-IsTally, credentials_of-IsTally, check_presence-IsTally, check_agent-IsTally,
  check_ssh_wiring-IsTally, backend_of-IsTally,
}
use tapwarden.Agent.Probe.{AgentHost}

-- No text is counted exactly if none is of the kind.
count_none : (p : Text → Bool) (l : List Text) → (count p l ≡ 0) ↔ (any p l ≡ false)
count_none p [] = (λ h. refl, λ h. refl)
count_none p (s ∷ rest) =
    (λ h. ground (arith, count_none p rest), λ h. ground (arith, count_none p rest))

any-append : (p : Text → Bool) (l : List Text) (s : Text) → any p (l ++ s ∷ []) ≡ (any p l || p s)
any-append p [] s = ground arith
any-append p (x ∷ l) s = ground (arith, any-append p l s)

none_more :
    (p : Text → Bool) (l : List Text) (s : Text)
    → any p l ≡ false
    → p s ≡ false
    → any p (l ++ s ∷ []) ≡ false
none_more p l s h k = any-append p l s ∙ ground arith

header_IsTally :
    (version : Text) (exe : Option Text)
    → IsTally (print (header_line version exe ++ (10 ∷ [])) new)
unfolding header_line text starts_with strip_prefix
header_IsTally version none = print-IsTally _ _ (refl, refl, refl, refl) new-IsTally
header_IsTally version (some exe) = print-IsTally _ _ (refl, refl, refl, refl) new-IsTally

concluded_ok_iff :
    (r : Report)
    → IsTally r
    → (is_ok (concluded r (verdict r.fails r.warns)).0 ≡ true)
      ↔ (any is_fail (concluded r (verdict r.fails r.warns)).1.printed ≡ false)
unfolding verdict print text starts_with strip_prefix
concluded_ok_iff r t = elim (Bool-cases (ltb 0 r.fails)) [
  | inl failed ↦
      rw failed (λ h. cc, λ h. absurd (ground (arith, t.fails, count_none is_fail r.printed)))
  | inr passed ↦
      let none_failed : any is_fail r.printed ≡ false =
        (count_none is_fail r.printed).0 (ground (arith, t.fails)) in
      elim (Bool-cases (ltb 0 r.warns)) [
        | inl warned ↦
            rw (passed, warned) (λ h. none_more is_fail r.printed _ none_failed refl, λ h. refl)
        | inr clean ↦
            rw (passed, clean) (λ h. none_more is_fail r.printed _ none_failed refl, λ h. refl)
      ]
]

module _ {Entry E Device PublicKey R PrivateKey W : Type 0}
    (host : DoctorHost E Device PublicKey R W)
    (agent : AgentHost Entry Device PublicKey R PrivateKey W) (show_id : ℕ → Text) where
  -- Through all the checks each counter of the report is the number of printed lines of its kind:
  -- `[fail]`, `[warn]`, all three tags together, and hints. No check runs without leaving its count,
  -- and nothing else that is printed looks like a check's line.
  pub examine-IsTally :
      (path : Option Text) (check_backend : Bool) (w : W)
      → IsTally (examine host agent show_id path check_backend w).0
  unfolding examine text starts_with strip_prefix
  examine-IsTally path check_backend w =
      let (exe, w1) = host.current_exe w in
      let r1 = print (header_line host.version (host.current_exe w).0 ++ (10 ∷ [])) new in
      let (cfg, (r2, w2)) = check_config host path r1 w1 in
      let r3 = credentials_of host cfg r2 in
      let (r4, w4) = check_presence host cfg r3 w2 in
      let (r5, w5) = check_agent host r4 w4 in
      let (r6, w6) = check_ssh_wiring host r5 w5 in
      let (r7, w7) = backend_of host agent show_id check_backend cfg r6 w6 in
      let t2 =
        check_config-IsTally host path r1 w1 (header_IsTally host.version (host.current_exe w).0) in
      let t4 = check_presence-IsTally host cfg r3 w2 (credentials_of-IsTally host cfg r2 t2) in
      let t6 = check_ssh_wiring-IsTally host r5 w5 (check_agent-IsTally host r4 w4 t4) in
      print-IsTally [] r7 (refl, refl, refl, refl)
        (backend_of-IsTally host agent show_id check_backend cfg r6 w6 t6)

  -- Doctor exits with success exactly if none of the lines it printed, its last one included, is a
  -- failed check.
  pub run_ok_iff :
      (path : Option Text) (check_backend : Bool) (w : W)
      → (is_ok (run host agent show_id path check_backend w).0.0 ≡ true)
        ↔ (any is_fail (run host agent show_id path check_backend w).0.1.printed ≡ false)
  unfolding run
  run_ok_iff path check_backend w =
      concluded_ok_iff (examine host agent show_id path check_backend w).0
        (examine-IsTally path check_backend w)
