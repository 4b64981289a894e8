-- ===== src/Vaultwarden/Kdf.antt =====
-- src/vaultwarden.rs: the derivation of the master key, and what is made of it. The key derivation
-- functions of the libraries are parameters.
pub mod Laws
use tapwarden.Base.{
  ℕ, ◌*◌, ◌^◌, Bool, not, ◌&&◌, Option, none, some, List, [], ◌∷◌, ◌++◌, Text, Bytes, text, trim,
  decimal, Result, ok, err, message, expect, bail_if, leb, ltb, ◌==◌, if◌then◌else◌, utf8,
}
use tapwarden.Base.Try.{◌>>=◌, ◌>>◌}
use tapwarden.Secret.Crypto.{Crypto, SymKey}

pub record KdfHost : Type 0 where
  -- PBKDF2-HMAC-SHA256 with 32 bytes of output: password, salt, iterations
  pub pbkdf2 : Bytes → Bytes → ℕ → Bytes
  pub sha256 : Bytes → Bytes
  -- `Params::new`: memory in KiB, iterations, parallelism, output length
  pub argon2_params : ℕ → ℕ → ℕ → ℕ → Bool
  -- Argon2id v0x13 with those parameters: password, salt
  pub argon2 : ℕ → ℕ → ℕ → Bytes → Bytes → Option Bytes
  pub b64_encode : Bytes → Text
  -- `str::to_lowercase`, the tables of Unicode
  pub to_lowercase : Text → Text

pub record KdfParams : Type 0 where
  pub kdf : ℕ
  pub iterations : ℕ
  -- in MiB
  pub memory : Option ℕ
  pub parallelism : Option ℕ

abbrev pub pbkdf2_min_iterations : ℕ
pbkdf2_min_iterations = 5000

abbrev pub pbkdf2_max_iterations : ℕ
pbkdf2_max_iterations = 10000000

abbrev pub argon2_max_iterations : ℕ
argon2_max_iterations = 100

abbrev pub argon2_min_memory_mib : ℕ
argon2_min_memory_mib = 8

abbrev pub argon2_max_memory_mib : ℕ
argon2_max_memory_mib = 2048

abbrev pub argon2_max_parallelism : ℕ
argon2_max_parallelism = 16

-- `(low..=high).contains(&n)`
abbrev pub in_range : ℕ → ℕ → ℕ → Bool
in_range low high n = leb low n && leb n high

-- `u32::checked_mul`
unfoldable pub checked_mul : ℕ → ℕ → Option ℕ
checked_mul a b = if ltb (a * b) (2 ^ 32) then some (a * b) else none

module _ (host : KdfHost) where
  abbrev pub salt_of : Text → Bytes
  salt_of email = utf8 (host.to_lowercase (trim email))

  unfoldable pub derive_pbkdf2 : Text → Text → KdfParams → Result Bytes
  derive_pbkdf2 password email kdf = do
    bail_if (not (in_range pbkdf2_min_iterations pbkdf2_max_iterations kdf.iterations))
        (message "server reported PBKDF2 iterations outside the accepted range")
    ok (host.pbkdf2 (utf8 password) (salt_of email) kdf.iterations)

  unfoldable pub derive_argon2 : Text → Text → KdfParams → Result Bytes
  unfolding checked_mul
  derive_argon2 password email kdf = do
    bail_if (not (in_range 1 argon2_max_iterations kdf.iterations))
        (message "server reported Argon2id iterations outside the accepted range")
    memory_mib ← expect "server reported Argon2id without a memory parameter" kdf.memory
    bail_if (not (in_range argon2_min_memory_mib argon2_max_memory_mib memory_mib))
        (message "server reported Argon2id memory outside the accepted range")
    parallelism ← expect "server reported Argon2id without a parallelism parameter" kdf.parallelism
    bail_if (not (in_range 1 argon2_max_parallelism parallelism))
        (message "server reported Argon2id parallelism outside the accepted range")
    memory_kib ← expect "Argon2id memory size overflows" (checked_mul memory_mib 1024)
    bail_if (not (host.argon2_params memory_kib kdf.iterations parallelism 32))
        (message "invalid Argon2 parameters")
    expect "Argon2 derivation failed" (
        host.argon2 memory_kib kdf.iterations parallelism (utf8 password)
          (host.sha256 (salt_of email)))

  unfoldable pub derive_master_key : Text → Text → KdfParams → Result Bytes
  unfolding derive_pbkdf2 derive_argon2
  derive_master_key password email kdf =
      if kdf.kdf == 0
      then derive_pbkdf2 password email kdf
      else (if kdf.kdf == 1
          then derive_argon2 password email kdf
          else err ((text "unsupported KDF type " ++ decimal kdf.kdf) ∷ []))

  unfoldable pub server_auth_hash : Bytes → Text → Text
  server_auth_hash master_key password = host.b64_encode (host.pbkdf2 master_key (utf8 password) 1)

-- The two halves are expanded separately, under their own labels.
unfoldable pub stretch_master_key : Crypto → Bytes → SymKey
stretch_master_key crypto master_key = record {
  enc = crypto.hkdf_expand master_key (text "enc") 32;
  mac = crypto.hkdf_expand master_key (text "mac") 32;
}
