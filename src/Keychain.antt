-- ===== src/Keychain.antt =====
-- src/keychain.rs. The keyring library is a record of calls on the world. Its errors are dropped on
-- purpose, except the one that says that an entry is missing.
use tapwarden.Base.{
  Bool, Option, none, some, [], ◌∷◌, ◌++◌, Text, text, Result, ok, err, if◌then◌else◌,
}
use tapwarden.Base.Action.{Action}

abbrev pub service : Text
service = text "tapwarden"

abbrev pub vw_client_id : Text
vw_client_id = text "vw_client_id"

abbrev pub vw_client_secret : Text
vw_client_secret = text "vw_client_secret"

abbrev pub vw_master_password : Text
vw_master_password = text "vw_master_password"

abbrev pub bws_access_token : Text
bws_access_token = text "bws_access_token"

-- What `get_password` gives: the value, `NoEntry`, or another error.
pub data Password : Type 0 where
  value : Text → Password
  no_entry : Password
  unreadable : Password

pub record Keyring (Entry W : Type 0) : Type 0 where
  -- `Entry::new(service, account)`
  pub open_entry : Text → Text → W → Option Entry × W
  pub set_password : Entry → Text → W → Bool × W
  pub get_password : Entry → W → Password × W
  pub delete_credential : Entry → W → W

module _ {Entry W : Type 0} (keyring : Keyring Entry W) where
  unfoldable pub opened : Text → Option Entry × W → Result Entry × W
  opened account (some e, w) = (ok e, w)
  opened account (none, w) =
      (err ((text "failed to open keychain entry `" ++ account ++ text "`") ∷ []), w)

  unfoldable pub entry : Text → Action W Entry
  unfolding opened
  entry account w = opened account (keyring.open_entry service account w)

  unfoldable pub stored : Text → Text → Result Entry × W → Result (Unit {0}) × W
  stored account v (err e, w) = (err e, w)
  stored account v (ok e, w) =
      let (done, w') = keyring.set_password e v w in
      (
        if done
            then ok tt
            else err ((text "failed to store `" ++ account ++ text "` in the keychain") ∷ []),
        w',
      )

  unfoldable pub store : Text → Text → Action W (Unit {0})
  unfolding stored entry
  store account v w = stored account v (entry account w)

  unfoldable pub read_result : Text → Password → Result Text
  read_result account (value v) = ok v
  read_result account no_entry = err (
      (text "keychain entry `" ++ account ++ text "` not found — run `tapwarden setup` to store it")
      ∷ [])
  read_result account unreadable =
      err ((text "failed to read `" ++ account ++ text "` from the keychain") ∷ [])

  unfoldable pub read_entry : Text → Result Entry × W → Result Text × W
  unfolding read_result
  read_entry account (err e, w) = (err e, w)
  read_entry account (ok e, w) =
      let (p, w') = keyring.get_password e w in (read_result account p, w')

  unfoldable pub read : Text → Action W Text
  unfolding read_entry entry
  read account w = read_entry account (entry account w)

  -- Best effort: nothing is reported.
  unfoldable pub delete_entry : Result Entry × W → W
  delete_entry (err e, w) = w
  delete_entry (ok e, w) = keyring.delete_credential e w

  unfoldable pub delete : Text → W → W
  unfolding delete_entry entry
  delete account w = delete_entry (entry account w)
