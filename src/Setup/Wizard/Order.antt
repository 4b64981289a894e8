-- ===== src/Setup/Wizard/Order.antt =====
-- In which order the wizard asks, stores and writes.
use tapwarden.Base.{
  err, ◌≡◌, ◌⊎◌, inl, inr, refl, ap, ◌∙◌, sym, subst, Bool, true, false, ◌++◌, Text, text, text_eq,
  text_eq_iff, trim, to_ascii_lowercase, Result, ok, err, message, Bool-cases,
}
use tapwarden.Base.Try.{bail_if-passed}
use tapwarden.Base.Action.{continue_with_ok, lift}
use tapwarden.Config.{keychain}
use tapwarden.Paths.{Metadata, refused, reject_symlink}
use tapwarden.Setup.{answered_yes}
use tapwarden.Setup.Terminal.{prompt}
use tapwarden.Setup.Files.{
  config_path, overwrite, confirm_overwrite, render_config, write_config_file,
}
use tapwarden.Setup.Wizard.Stored.{StoredAll, store_credentials-StoredAll}
use tapwarden.Setup.Wizard.{SetupHost, Answers, store_credentials, write_answers, finish}

module _ {Entry Handle W : Type 0} (host : SetupHost Entry Handle W) where
  abbrev overwrite_label : Text
  overwrite_label = text "Overwrite it? [y/N]: "

  -- Where a configuration is there and the user does not say yes to overwriting it, the wizard ends
  -- with the answer: no credential is deleted or stored, and no file is written.
  pub finish_declined :
      (a : Answers) (path answer : Text) (w w1 w2 w3 : W)
      → config_path host.disk ≡ ok path
      → reject_symlink host.disk.files path w ≡ (ok tt, w1)
      → host.disk.exists path w1 ≡ (true, w2)
      → prompt host.server.terminal overwrite_label
          (host.disk.println (text "Config file " ++ path ++ text " already exists.") w2)
        ≡ (ok answer, w3)
      → answered_yes answer false ≡ false
      → finish host a w ≡ (err (message "aborted: the existing config file was left untouched"), w3)
  unfolding finish confirm_overwrite
  finish_declined a path answer w w1 w2 w3 p e1 e2 e3 declined = rw (p, e1, e2, e3, declined) refl

  -- A yes, in whatever case and with whatever blanks around it.
  abbrev pub IsYes : Text → Type 0
  IsYes answer =
      (to_ascii_lowercase (trim answer) ≡ text "y")
      ⊎ (to_ascii_lowercase (trim answer) ≡ text "yes")

  abbrev pub NotLink : Result Metadata → Type 0
  NotLink (ok meta) = meta.is_file ≡ true
  NotLink (err e) = Unit

  -- What follows the look whether the file exists: nothing if it does not; and if it does, the question,
  -- with a yes for an answer.
  abbrev pub Agreed : Text → Bool × W → W → Type 0
  Agreed path (false, w) w' = w ≡ w'
  Agreed path (true, w) w' =
      (answer : Text) × (prompt host.server.terminal overwrite_label
          (host.disk.println (text "Config file " ++ path ++ text " already exists.") w)
        ≡ (ok answer, w'))
      × IsYes answer

  -- The leave to write the file: the path is no link to elsewhere, and no file is there, or the user
  -- agrees to overwriting it.
  pub record Leave (path : Text) (w w' : W) : Type 0 where
    pub own : NotLink (host.disk.files.symlink_metadata path w).0
    pub agreed : Agreed path (host.disk.exists path (host.disk.files.symlink_metadata path w).1) w'

  yes : (answer : Text) → answered_yes answer false ≡ true → IsYes answer
  unfolding answered_yes
  yes answer h = elim (Bool-cases (text_eq (to_ascii_lowercase (trim answer)) (text "y"))) [
    | inl y ↦ inl ((text_eq_iff _ _).0 y)
    | inr n ↦ inr ((text_eq_iff _ _).0 (rw n at h))
  ]

  not_refused :
      (path : Text) (r : Result Metadata) → refused host.disk.files path r ≡ ok tt → NotLink r
  unfolding refused
  not_refused path (err e) h = tt
  not_refused path (ok meta) h = elim (Bool-cases meta.is_file) [
    | inl file ↦ file
    | inr link ↦ absurd (cc (rw link at h))
  ]

  overwrite-Agreed :
      (path : Text) (p : Bool × W) (w' : W)
      → overwrite host.disk path (prompt host.server.terminal overwrite_label) p ≡ (ok tt, w')
      → Agreed path p w'
  overwrite-Agreed path (false, w) w' h = ap (λ x. x.1) h
  overwrite-Agreed path (true, w) w' h =
      let (answer, v, asked, h1) =
        continue_with_ok
          (prompt host.server.terminal overwrite_label
            (host.disk.println (text "Config file " ++ path ++ text " already exists.") w))
          _ h in
      let same : v ≡ w' = ap (λ x. x.1) h1 in
      (
        answer,
        asked ∙ ap (λ x. (ok answer, x)) same,
        yes answer (bail_if-passed (answered_yes answer false) _ _ (ap (λ x. x.0) h1)),
      )

  confirm_overwrite-Leave :
      (path : Text) (w w' : W)
      → confirm_overwrite host.disk path (prompt host.server.terminal overwrite_label) w
        ≡ (ok tt, w')
      → Leave path w w'
  unfolding confirm_overwrite reject_symlink
  confirm_overwrite-Leave path w w' h =
      let (u, v, e, h1) = continue_with_ok (reject_symlink host.disk.files path w) _ h in
      let same : (host.disk.files.symlink_metadata path w).1 ≡ v = ap (λ x. x.1) e in
      record {
        own = not_refused path _ (ap (λ x. x.0) e);
        agreed =
            subst (λ x. Agreed path (host.disk.exists path x) w') (sym same)
              (overwrite-Agreed path (host.disk.exists path v) w' h1);
      }

  -- The file was rendered and written, from the world `w` on.
  pub record Written (path : Text) (a : Answers) (w : W) : Type 0 where
    pub contents : Text
    pub written : W
    pub rendered :
        render_config host.show_uuid a.server_url a.email a.chosen a.credentials ≡ ok contents
    pub file : write_config_file host.disk path contents w ≡ (ok tt, written)

  write_answers-Written :
      (path : Text) (a : Answers) (w w' : W)
      → write_answers host path a w ≡ (ok tt, w')
      → Written path a w
  unfolding write_answers
  write_answers-Written path a w w' h =
      let (contents, v, e, h1) =
        continue_with_ok
          (lift (render_config host.show_uuid a.server_url a.email a.chosen a.credentials) w) _ h in
      let (u, v', e', h2) = continue_with_ok (write_config_file host.disk path contents v) _ h1 in
      record {
        contents = contents;
        written = v';
        rendered = ap (λ x. x.0) e;
        file =
            subst (λ x. write_config_file host.disk path contents x ≡ (ok tt, v'))
              (sym (ap (λ x. x.1) e)) e';
      }

  -- A wizard that ends well with the credentials in the keychain had leave to write the configuration
  -- before it stored anything: the path was not a link, and no file was there or the user, asked about it,
  -- answered `y` or `yes`. Then it stored all three credentials, and only then wrote the file.
  pub finish-StoredAll :
      (a : Answers) (w w' : W)
      → a.credentials ≡ keychain
      → finish host a w ≡ (ok tt, w')
      → (path : Text) × (w1 : W) × (w2 : W) × (config_path host.disk ≡ ok path)
        × Leave path w w1
        × StoredAll host a w1 w2
        × Written path a w2
  unfolding finish
  finish-StoredAll a w w' k h =
      let (path, w0, e0, h0) = continue_with_ok (lift (config_path host.disk) w) _ h in
      let (u1, w1, e1, h1) =
        continue_with_ok
          (confirm_overwrite host.disk path (prompt host.server.terminal overwrite_label) w0) _
          h0 in
      let (u2, w2, e2, h2) = continue_with_ok (store_credentials host a.credentials a w1) _ h1 in
      (
        path,
        w1,
        w2,
        ap (λ x. x.0) e0,
        subst (λ x. Leave path x w1) (sym (ap (λ x. x.1) e0))
            (confirm_overwrite-Leave path w0 w1 e1),
        store_credentials-StoredAll host a w1 w2
            (subst (λ x. store_credentials host x a w1 ≡ (ok tt, w2)) k e2),
        write_answers-Written path a w2 w' h2,
      )
