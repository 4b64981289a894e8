-- ===== src/Secret/Crypto.antt =====
-- src/secret_source.rs: `SymKey`, and the cryptographic libraries that it and `EncString` call. Their
-- functions are parameters.
use tapwarden.Base.{
  ℕ, ◌≡◌, ◌↔◌, refl, Bool, Option, ◌++◌, Text, Bytes, text, Result, ok, err, message, arith, length,
  take, drop, length-take, length-drop, take-append-drop, take-append, drop-append, length-append,
  ◌==◌, ==_iff, Bool-cases, inl, inr, subst, ok-injective, if◌then◌else◌,
}

pub record Crypto : Type 0 where
  -- standard base64 with or without padding
  pub b64_decode : Text → Result Bytes
  -- `Hmac<Sha256>`: key and message; and `verify_slice`, which compares in constant time
  pub hmac : Bytes → Bytes → Bytes
  pub hmac_verify : Bytes → Bytes → Bytes → Bool
  -- AES-256-CBC with PKCS#7: key, iv, ciphertext; `none` on bad padding
  pub cbc_decrypt : Bytes → Bytes → Bytes → Option Bytes
  -- HKDF-SHA256 expand: pseudorandom key, info, output length
  pub hkdf_expand : Bytes → Bytes → ℕ → Bytes
  pub from_utf8 : Bytes → Result Text

-- The encryption and authentication halves of a 64-byte key.
pub record SymKey : Type 0 where
  pub enc : Bytes
  pub mac : Bytes

abbrev pub halves : Bytes → SymKey
halves bytes = record { enc = take 32 bytes; mac = drop 32 bytes }

-- `SymKey::from_bytes`
unfoldable pub from_bytes : Bytes → Result SymKey
from_bytes bytes =
    if length bytes == 64
    then ok (halves bytes)
    else err (message "symmetric key has wrong length (expected 64 bytes)")

from_bytes-append :
    (k : SymKey) → length k.enc ≡ 32 → length k.mac ≡ 32 → from_bytes (k.enc ++ k.mac) ≡ ok k
unfolding from_bytes
from_bytes-append k a b =
    let front : take 32 (k.enc ++ k.mac) ≡ k.enc =
      subst (λ n. take n (k.enc ++ k.mac) ≡ k.enc) a (take-append k.enc k.mac) in
    let back : drop 32 (k.enc ++ k.mac) ≡ k.mac =
      subst (λ n. drop n (k.enc ++ k.mac) ≡ k.mac) a (drop-append k.enc k.mac) in
    rw (
      (==_iff (length (k.enc ++ k.mac)) 64).1 (omega (arith, length-append k.enc k.mac)),
      front,
      back,
    )

-- A key is made from exactly the byte strings of length 64, and loses none of them: its halves
-- are 32 bytes each and are the input in order.
pub from_bytes_iff :
    (bytes : Bytes) (k : SymKey)
    → (from_bytes bytes ≡ ok k)
      ↔ ((length k.enc ≡ 32) × (length k.mac ≡ 32) × (k.enc ++ k.mac ≡ bytes))
unfolding from_bytes
from_bytes_iff bytes k = (
  λ h. elim (Bool-cases (length bytes == 64)) [
    | inl right ↦
        let e : halves bytes ≡ k = ok-injective (rw right at h) in
        let n : length bytes ≡ 64 = (==_iff (length bytes) 64).0 right in
        subst (λ j. (length j.enc ≡ 32) × (length j.mac ≡ 32) × (j.enc ++ j.mac ≡ bytes)) e
          (
            length-take 32 bytes (omega arith),
            omega (arith, length-drop 32 bytes),
            take-append-drop 32 bytes,
          )
    | inr wrong ↦ absurd (cc (rw wrong at h))
  ],
  λ (a, b, c). subst (λ bs. from_bytes bs ≡ ok k) c (from_bytes-append k a b),
)

module _ (crypto : Crypto) where
  -- `SymKey::derive_access_token_key`; the output has 64 bytes, so `from_bytes` takes it apart.
  unfoldable pub derive_access_token_key : Bytes → SymKey
  derive_access_token_key seed =
      let prk = crypto.hmac (text "bitwarden-accesstoken") seed in
      halves (crypto.hkdf_expand prk (text "sm-access-token") 64)

  -- Where the expansion gives as many bytes as it is asked for, the `expect` in the derivation
  -- cannot fail.
  pub derive-from_bytes :
      (seed : Bytes)
      → ((prk info : Bytes) (n : ℕ) → length (crypto.hkdf_expand prk info n) ≡ n)
      → from_bytes (
          crypto.hkdf_expand
            (crypto.hmac (text "bitwarden-accesstoken") seed)
            (text "sm-access-token")
            64)
        ≡ ok (derive_access_token_key seed)
  unfolding from_bytes derive_access_token_key
  derive-from_bytes seed h =
      rw (h (crypto.hmac (text "bitwarden-accesstoken") seed) (text "sm-access-token") 64) refl
