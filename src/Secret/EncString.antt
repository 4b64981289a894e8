-- ===== src/Secret/EncString.antt =====
-- src/secret_source.rs: `EncString`, its parser and its decryption.
pub mod Laws
use tapwarden.Base.{
  ℕ, ◌≡◌, Bool, List, [], ◌∷◌, ◌++◌, Text, Bytes, text, split, strip_prefix, String, Result, ok,
  err, message, context, expect, length, ◌==◌, if◌then◌else◌,
}
use tapwarden.Base.Try.{◌>>=◌}
use tapwarden.Secret.Crypto.{Crypto, SymKey}

-- Type 2: AES-256-CBC with HMAC-SHA256.
pub record EncString : Type 0 where
  pub iv : Bytes
  pub data_bytes : Bytes
  pub mac : Bytes

-- `try_into` to an array of `n` bytes.
unfoldable pub to_array : ℕ → String → Bytes → Result Bytes
to_array n m bytes = if length bytes == n then ok bytes else err (message m)

module _ (crypto : Crypto) where
  unfoldable pub parse_parts : List Text → Result EncString
  unfolding to_array
  parse_parts (iv ∷ data_text ∷ mac ∷ []) = do
    iv_bytes ← context "malformed EncString: iv is not base64" (crypto.b64_decode iv)
    iv16 ← to_array 16 "malformed EncString: iv is not 16 bytes" iv_bytes
    bytes ← context "malformed EncString: data is not base64" (crypto.b64_decode data_text)
    mac_bytes ← context "malformed EncString: mac is not base64" (crypto.b64_decode mac)
    mac32 ← to_array 32 "malformed EncString: mac is not 32 bytes" mac_bytes
    ok (record { iv = iv16; data_bytes = bytes; mac = mac32 })
  parse_parts _ = err (message "malformed EncString: expected 3 '|'-separated parts")

  unfoldable pub parse : Text → Result EncString
  unfolding parse_parts
  parse s = do
    rest ←
        expect "unsupported EncString (expected type 2, AesCbc256_HmacSha256_B64)"
          (strip_prefix (text "2.") s)
    parse_parts (split b'|' rest)

  -- The MAC over iv and ciphertext is verified before anything is decrypted.
  unfoldable pub decrypt : EncString → SymKey → Result Bytes
  decrypt e key =
      if crypto.hmac_verify key.mac (e.iv ++ e.data_bytes) e.mac
      then expect "EncString decryption failed (bad padding)"
          (crypto.cbc_decrypt key.enc e.iv e.data_bytes)
      else err (message "EncString MAC verification failed")

  unfoldable pub decrypt_to_string : EncString → SymKey → Result Text
  unfolding decrypt
  decrypt_to_string e key = do
    bytes ← decrypt e key
    context "decrypted value is not valid UTF-8" (crypto.from_utf8 bytes)
