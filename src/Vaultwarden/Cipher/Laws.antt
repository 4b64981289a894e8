-- ===== src/Vaultwarden/Cipher/Laws.antt =====
-- Which items are accepted, and under which key their fields are read.
use tapwarden.Base.{
  ◌≡◌, refl, Option, none, some, Text, Result, ok, err, Error, bail_if, result_map, option_is_some,
  ◌==◌, ==_iff, subst, ok-injective,
}
use tapwarden.Base.Try.{◌>>◌, >>=-eq-ok, bail_if-eq-ok, expect-eq-ok}
use tapwarden.Secret.Crypto.{Crypto, SymKey}
use tapwarden.Secret.Bws.Decode.{SecretData}
use tapwarden.Vaultwarden.Cipher.{
  CipherResponse, unwrap_or, item_key, resolve_cipher_key, decrypt_item, extract_secret,
}

module _ (crypto : Crypto) where
  -- The key of an item: its own, unwrapped with the user's, or the user's where it has none.
  pub data ItemKey (cipher : CipherResponse) (user_key key : SymKey) : Type 0 where
    users : cipher.key ≡ none → key ≡ user_key → ItemKey cipher user_key key
    own :
        (k : Text)
        → cipher.key ≡ some k
        → item_key crypto k user_key ≡ ok key
        → ItemKey cipher user_key key

  pub record Extracts (cipher : CipherResponse) (user_key : SymKey) (secret : SecretData)
      : Type 0 where
    pub private_key : Text
    pub key : SymKey
    pub personal : cipher.organization_id ≡ none
    pub kind : cipher.atype ≡ 5
    pub usable : cipher.ssh_key ≡ some private_key
    pub item : ItemKey cipher user_key key
    pub decrypted : decrypt_item crypto cipher.name private_key key ≡ ok secret

  resolved :
      (cipher : CipherResponse) (user_key : SymKey) (own_key : Option SymKey) (o : Option Text)
      → cipher.key ≡ o
      → resolve_cipher_key crypto o user_key ≡ ok own_key
      → ItemKey cipher user_key (unwrap_or user_key own_key)
  unfolding resolve_cipher_key
  resolved cipher user_key own_key none e h =
      subst (λ o. ItemKey cipher user_key (unwrap_or user_key o)) (ok-injective h) (users e refl)
  resolved cipher user_key own_key (some k) e h = go (item_key crypto k user_key) refl h
    where
      go :
          (r : Result SymKey)
          → item_key crypto k user_key ≡ r
          → result_map some r ≡ ok own_key
          → ItemKey cipher user_key (unwrap_or user_key own_key)
      go (ok x) f g =
          subst (λ o. ItemKey cipher user_key (unwrap_or user_key o)) (ok-injective g) (own k e f)
      go (err x) f g = cc

  ungated :
      (o : Option Text) (e : Error) (m : Result SecretData) {b : SecretData}
      → (bail_if (option_is_some o) e >> m) ≡ ok b
      → (o ≡ none) × (m ≡ ok b)
  ungated none e m h = (refl, h)
  ungated (some x) e m h = cc

  -- A secret is taken only from an SSH key item of the personal vault that the server has not
  -- emptied, and both its fields are then decrypted under the item's own key, or under the user's
  -- where the item has none.
  pub extract_secret_sound :
      (cipher : CipherResponse) (user_key : SymKey) (secret : SecretData)
      → extract_secret crypto cipher user_key ≡ ok secret
      → Extracts cipher user_key secret
  unfolding extract_secret
  extract_secret_sound cipher user_key secret h =
      let (personal, h1) = ungated cipher.organization_id _ _ h in
      let (kind, h2) = bail_if-eq-ok (cipher.atype == 5) _ _ h1 in
      let (private_key, usable, h3) = expect-eq-ok _ cipher.ssh_key _ h2 in
      let (own_key, unwrapped, h4) =
        >>=-eq-ok (resolve_cipher_key crypto cipher.key user_key) _ h3 in
      record {
        private_key = private_key;
        key = unwrap_or user_key own_key;
        personal = personal;
        kind = (==_iff cipher.atype 5).0 kind;
        usable = usable;
        item = resolved cipher user_key own_key cipher.key refl unwrapped;
        decrypted = h4;
      }
