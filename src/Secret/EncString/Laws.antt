-- ===== src/Secret/EncString/Laws.antt =====
-- What `EncString::parse` accepts and what `decrypt` demands.
use tapwarden.Base.{
  ◌≡◌, ◌↔◌, refl, sym, ap, ◌∙◌, true, false, Option, none, some, List, [], ◌∷◌, ◌++◌, Text, Bytes,
  text, split, strip_prefix, join, ok, err, message, expect, length, arith, All,
}
use tapwarden.Base.Try.{◌>>=◌}
use tapwarden.Base.Split.{
  Without, split-Without, split-append, split-pieces, join-split, strip_prefix_iff,
}
use tapwarden.Secret.Crypto.{Crypto, SymKey}
use tapwarden.Secret.EncString.{EncString, parse_parts, parse, decrypt}

-- The text form: `2.` and three pieces between bars.
abbrev pub written : Text → Text → Text → Text
written a b c = text "2." ++ (a ++ b'|' ∷ (b ++ b'|' ∷ c))

module _ (crypto : Crypto) where
  -- The three pieces are base64 of the three parts, of which two have their fixed sizes.
  pub record Encodes (a b c : Text) (e : EncString) : Type 0 where
    pub iv_decodes : crypto.b64_decode a ≡ ok e.iv
    pub data_decodes : crypto.b64_decode b ≡ ok e.data_bytes
    pub mac_decodes : crypto.b64_decode c ≡ ok e.mac
    pub iv_size : length e.iv ≡ 16
    pub mac_size : length e.mac ≡ 32

  parts_Encodes :
      (a b c : Text) (e : EncString) → parse_parts crypto (a ∷ b ∷ c ∷ []) ≡ ok e → Encodes a b c e
  unfolding parse_parts
  parts_Encodes a b c e h = ground (arith)

  Encodes-parts :
      (a b c : Text) (e : EncString) → Encodes a b c e → parse_parts crypto (a ∷ b ∷ c ∷ []) ≡ ok e
  unfolding parse_parts
  Encodes-parts a b c e h = ground arith

  -- A text that reads as an encrypted string: its prefix, and three pieces without a bar.
  pub record Reads (s : Text) (e : EncString) : Type 0 where
    pub iv_text : Text
    pub data_text : Text
    pub mac_text : Text
    pub bars : Without b'|' iv_text × Without b'|' data_text × Without b'|' mac_text
    pub form : s ≡ written iv_text data_text mac_text
    pub encodes : Encodes iv_text data_text mac_text e

  split_written :
      (a b c : Text)
      → Without b'|' a
      → Without b'|' b
      → Without b'|' c
      → split b'|' (a ++ b'|' ∷ (b ++ b'|' ∷ c)) ≡ a ∷ b ∷ c ∷ []
  split_written a b c ha hb hc =
      rw (split-append b'|' a _ ha, split-append b'|' b c hb, split-Without b'|' c hc) refl

  parse-written :
      (a b c : Text) (e : EncString)
      → Without b'|' a × Without b'|' b × Without b'|' c
      → Encodes a b c e
      → parse crypto (written a b c) ≡ ok e
  unfolding parse
  parse-written a b c e (ha, hb, hc) h =
      rw
        (
          (strip_prefix_iff (text "2.") (written a b c) (a ++ b'|' ∷ (b ++ b'|' ∷ c))).1 refl,
          split_written a b c ha hb hc,
        )
        (Encodes-parts a b c e h)

  parse_inverts : (s : Text) (e : EncString) → parse crypto s ≡ ok e → Reads s e
  unfolding parse join
  parse_inverts s e h = stripped (strip_prefix (text "2.") s) refl h
    where
      three :
          (rest : Text) (l : List Text)
          → s ≡ text "2." ++ rest
          → All (Without b'|') l
          → join (b'|' ∷ []) l ≡ rest
          → parse_parts crypto l ≡ ok e
          → Reads s e
      three rest [] f w j k = cc
      three rest (a ∷ []) f w j k = cc
      three rest (a ∷ b ∷ []) f w j k = cc
      three rest (a ∷ b ∷ c ∷ d ∷ l) f w j k = cc
      three rest (a ∷ b ∷ c ∷ []) f w j k = record {
        iv_text = a;
        data_text = b;
        mac_text = c;
        bars = (w.0, w.1.0, w.1.1.0);
        form = f ∙ ap (λ t. text "2." ++ t) (sym j);
        encodes = parts_Encodes a b c e k;
      }

      stripped :
          (o : Option Text)
          → strip_prefix (text "2.") s ≡ o
          → (expect "unsupported EncString (expected type 2, AesCbc256_HmacSha256_B64)" o
              >>= λ rest. parse_parts crypto (split b'|' rest))
            ≡ ok e
          → Reads s e
      stripped none f k = cc
      stripped (some rest) f k =
          three rest (split b'|' rest) ((strip_prefix_iff (text "2.") s rest).0 f)
            (split-pieces b'|' rest) (join-split b'|' rest) k

  -- The parser accepts exactly the texts `2.<iv>|<data>|<mac>` whose pieces are base64 and whose
  -- iv and MAC have 16 and 32 bytes, and returns the decoded pieces.
  pub enc_string_parse_iff : (s : Text) (e : EncString) → (parse crypto s ≡ ok e) ↔ Reads s e
  enc_string_parse_iff s e = (
    parse_inverts s e,
    λ r. rw r.form (parse-written r.iv_text r.data_text r.mac_text e r.bars r.encodes),
  )

  -- Decryption succeeds exactly when the MAC over iv and ciphertext verifies and the padding is
  -- right; and as long as the MAC does not verify, the answer is one fixed error that does not
  -- depend on the cipher at all.
  pub decrypt_authentic :
      (e : EncString) (key : SymKey) (plain : Bytes)
      → ((decrypt crypto e key ≡ ok plain) ↔ (
          (crypto.hmac_verify key.mac (e.iv ++ e.data_bytes) e.mac ≡ true)
          × (crypto.cbc_decrypt key.enc e.iv e.data_bytes ≡ some plain)))
        × (crypto.hmac_verify key.mac (e.iv ++ e.data_bytes) e.mac ≡ false
            → (cipher : Bytes → Bytes → Bytes → Option Bytes)
            → decrypt (record crypto { cbc_decrypt = cipher }) e key
              ≡ err (message "EncString MAC verification failed"))
  unfolding decrypt
  decrypt_authentic e key plain =
      ((λ h. ground arith, λ h. ground arith), λ unverified cipher. rw unverified)

  -- What an encryptor is assumed to do: its base64 decodes and has no bar, its MAC has 32 bytes and
  -- verifies, and its cipher text decrypts.
  pub record Encryptor (encode : Bytes → Text) (encrypt : Bytes → Bytes → Bytes → Bytes)
      : Type 0 where
    pub decodes : (b : Bytes) → crypto.b64_decode (encode b) ≡ ok b
    pub barless : (b : Bytes) → Without b'|' (encode b)
    pub mac_size : (k m : Bytes) → length (crypto.hmac k m) ≡ 32
    pub verifies : (k m : Bytes) → crypto.hmac_verify k m (crypto.hmac k m) ≡ true
    pub decrypts : (k iv p : Bytes) → crypto.cbc_decrypt k iv (encrypt k iv p) ≡ some p

  -- `2.<iv>|<ciphertext>|<mac>` of a plaintext, as a Bitwarden client writes it.
  abbrev pub sealed :
      (Bytes → Text) → (Bytes → Bytes → Bytes → Bytes) → SymKey → Bytes → Bytes → Text
  sealed encode encrypt key iv plain =
      let c = encrypt key.enc iv plain in
      written (encode iv) (encode c) (encode (crypto.hmac key.mac (iv ++ c)))

  -- What an encryptor wrote under a key with a 16-byte iv is parsed and decrypted to the plaintext.
  pub decrypt-parse-sealed :
      (encode : Bytes → Text) (encrypt : Bytes → Bytes → Bytes → Bytes)
      → Encryptor encode encrypt
      → (key : SymKey) (iv plain : Bytes) → length iv ≡ 16
      → (parse crypto (sealed encode encrypt key iv plain) >>= λ e. decrypt crypto e key) ≡ ok plain
  unfolding decrypt
  decrypt-parse-sealed encode encrypt x key iv plain size =
      let c = encrypt key.enc iv plain in
      let e : EncString = record { iv = iv; data_bytes = c; mac = crypto.hmac key.mac (iv ++ c) } in
      rw (
        parse-written (encode iv) (encode c) (encode (crypto.hmac key.mac (iv ++ c))) e
            (x.barless iv, x.barless c, x.barless _)
            (record {
              iv_decodes = x.decodes iv;
              data_decodes = x.decodes c;
              mac_decodes = x.decodes _;
              iv_size = size;
              mac_size = x.mac_size key.mac (iv ++ c);
            }),
        x.verifies key.mac (iv ++ c),
        x.decrypts key.enc iv plain,
      )
