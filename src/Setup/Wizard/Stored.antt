-- ===== src/Setup/Wizard/Stored.antt =====
-- That the credentials are in the keychain after `store_credentials`.
use tapwarden.Base.{
  some, none, Option, [], ◌∷◌, if◌then◌else◌, err, ◌≡◌, refl, ap, Bool, true, false, ◌++◌, Text,
  text, Result, ok, err,
}
use tapwarden.Base.Action.{continue_with_ok}
use tapwarden.Keychain
use tapwarden.Keychain.{vw_client_id, vw_client_secret, vw_master_password}
use tapwarden.Config.{keychain}
use tapwarden.Setup.Wizard.{SetupHost, Answers, replace_entry, store_credentials}

module _ {Entry Handle W : Type 0} (host : SetupHost Entry Handle W) where
  -- The account's entry was deleted, opened again and set to the value.
  pub record Replaced (account value : Text) (w w' : W) : Type 0 where
    pub entry : Entry
    pub opened : W
    pub found :
        host.keyring.open_entry Keychain.service account (Keychain.delete host.keyring account w)
        ≡ (some entry, opened)
    pub set : host.keyring.set_password entry value opened ≡ (true, w')

  -- One entry after the other was replaced, and all three are stored.
  pub record StoredAll (a : Answers) (w w' : W) : Type 0 where
    pub first : W
    pub second : W
    pub client_id : Replaced vw_client_id a.client_id w first
    pub client_secret : Replaced vw_client_secret a.client_secret first second
    pub master_password : Replaced vw_master_password a.master_password second w'

  set_ok :
      (account : Text) (entry : Entry) (p : Bool × W) (w' : W)
      → ◌≡◌ {A = Result (Unit {0}) × W}
          (
            if p.0
                then ok tt
                else err ((text "failed to store `" ++ account ++ text "` in the keychain") ∷ []),
            p.1,
          )
          (ok tt, w')
      → p ≡ (true, w')
  set_ok account entry (true, v) w' h = ap (λ x. (true, x.1)) h
  set_ok account entry (false, v) w' h = cc

  opened_ok :
      (account value : Text) (w w' : W) (p : Option Entry × W)
      → host.keyring.open_entry Keychain.service account (Keychain.delete host.keyring account w)
        ≡ p
      → Keychain.stored host.keyring account value (Keychain.opened host.keyring account p)
        ≡ (ok tt, w')
      → Replaced account value w w'
  unfolding Keychain.stored Keychain.opened
  opened_ok account value w w' (some e, v) found h = record {
    entry = e;
    opened = v;
    found = found;
    set = set_ok account e (host.keyring.set_password e value v) w' h;
  }
  opened_ok account value w w' (none, v) found h = cc

  replace_entry-Replaced :
      (account value : Text) (w w' : W)
      → replace_entry host account value w ≡ (ok tt, w')
      → Replaced account value w w'
  unfolding replace_entry Keychain.store Keychain.entry
  replace_entry-Replaced account value w w' h = opened_ok account value w w' _ refl h

  pub store_credentials-StoredAll :
      (a : Answers) (w w' : W)
      → store_credentials host keychain a w ≡ (ok tt, w')
      → StoredAll a w w'
  unfolding store_credentials
  store_credentials-StoredAll a w w' h =
      let (u1, w1, e1, h1) = continue_with_ok (replace_entry host vw_client_id a.client_id w) _ h in
      let (u2, w2, e2, h2) =
        continue_with_ok (replace_entry host vw_client_secret a.client_secret w1) _ h1 in
      record {
        first = w1;
        second = w2;
        client_id = replace_entry-Replaced vw_client_id a.client_id w w1 e1;
        client_secret = replace_entry-Replaced vw_client_secret a.client_secret w1 w2 e2;
        master_password = replace_entry-Replaced vw_master_password a.master_password w2 w' h2;
      }
