-- ===== src/Vaultwarden/Kdf/Laws.antt =====
-- Which parameters of a server are accepted, and what is then computed from them.
use tapwarden.Base.{
  ℕ, ◌*◌, ◌≡◌, ◌↔◌, refl, ◌≤◌, true, Option, none, some, Text, Bytes, ok, ◌==◌, ==_iff, utf8, arith,
  Bool-cases, ok-injective, inl, inr, ◌⊎◌, subst, expect,
}
use tapwarden.Base.Try.{bail_if-eq-ok, expect-eq-ok}
use tapwarden.Vaultwarden.Kdf.{
  KdfHost, KdfParams, checked_mul, salt_of, derive_pbkdf2, derive_argon2, derive_master_key,
  in_range,
}

module _ (host : KdfHost) where
  pub record Pbkdf2 (password email : Text) (kdf : KdfParams) (key : Bytes) : Type 0 where
    pub kind : kdf.kdf ≡ 0
    pub low : 5000 ≤ kdf.iterations
    pub high : kdf.iterations ≤ 10000000
    pub derived : host.pbkdf2 (utf8 password) (salt_of host email) kdf.iterations ≡ key

  pub record Argon2 (password email : Text) (kdf : KdfParams) (key : Bytes) : Type 0 where
    pub memory_mib : ℕ
    pub parallelism : ℕ
    pub kind : kdf.kdf ≡ 1
    pub iterations_low : 1 ≤ kdf.iterations
    pub iterations_high : kdf.iterations ≤ 100
    pub memory : kdf.memory ≡ some memory_mib
    pub memory_low : 8 ≤ memory_mib
    pub memory_high : memory_mib ≤ 2048
    pub threads : kdf.parallelism ≡ some parallelism
    pub threads_low : 1 ≤ parallelism
    pub threads_high : parallelism ≤ 16
    pub accepted : host.argon2_params (memory_mib * 1024) kdf.iterations parallelism 32 ≡ true
    pub derived :
        host.argon2
          (memory_mib * 1024)
          kdf.iterations
          parallelism
          (utf8 password)
          (host.sha256 (salt_of host email))
        ≡ some key

  derive_pbkdf2_iff :
      (password email : Text) (kdf : KdfParams) (key : Bytes)
      → kdf.kdf ≡ 0
      → (derive_pbkdf2 host password email kdf ≡ ok key) ↔ Pbkdf2 password email kdf key
  unfolding derive_pbkdf2
  derive_pbkdf2_iff password email kdf key k = (
    λ h. elim (Bool-cases (in_range 5000 10000000 kdf.iterations)) [
      | inl inside ↦ record {
        kind = k;
        low = ground arith;
        high = ground arith;
        derived = ok-injective (rw inside at h);
      }
      | inr outside ↦ absurd (cc (rw outside at h))
    ],
    λ r.
        let low = r.low in
        let high = r.high in
        let inside : in_range 5000 10000000 kdf.iterations ≡ true = ground arith in
        rw (inside, r.derived) refl,
  )

  checked_kib : (m : ℕ) → m ≤ 2048 → checked_mul m 1024 ≡ some (m * 1024)
  unfolding checked_mul
  checked_kib m h = ground arith

  within : (low high n : ℕ) → in_range low high n ≡ true → (low ≤ n) × (n ≤ high)
  within low high n h = (ground arith, ground arith)

  inside : (low high n : ℕ) → low ≤ n → n ≤ high → in_range low high n ≡ true
  inside low high n a b = ground arith

  derive_argon2_complete :
      (password email : Text) (kdf : KdfParams) (key : Bytes)
      → Argon2 password email kdf key
      → derive_argon2 host password email kdf ≡ ok key
  unfolding derive_argon2
  derive_argon2_complete password email kdf key r =
      rw
        (
          inside 1 100 kdf.iterations r.iterations_low r.iterations_high,
          r.memory,
          inside 8 2048 r.memory_mib r.memory_low r.memory_high,
          r.threads,
          inside 1 16 r.parallelism r.threads_low r.threads_high,
          checked_kib r.memory_mib r.memory_high,
          r.accepted,
          r.derived,
        )
        refl

  derive_argon2_sound :
      (password email : Text) (kdf : KdfParams) (key : Bytes)
      → kdf.kdf ≡ 1
      → derive_argon2 host password email kdf ≡ ok key
      → Argon2 password email kdf key
  unfolding derive_argon2
  derive_argon2_sound password email kdf key k h =
      let (rounds, h1) = bail_if-eq-ok (in_range 1 100 kdf.iterations) _ _ h in
      let (m, memory, h2) = expect-eq-ok _ kdf.memory _ h1 in
      let (sized, h3) = bail_if-eq-ok (in_range 8 2048 m) _ _ h2 in
      let (p, threads, h4) = expect-eq-ok _ kdf.parallelism _ h3 in
      let (parallel, h5) = bail_if-eq-ok (in_range 1 16 p) _ _ h4 in
      let (kib, product, h6) = expect-eq-ok _ (checked_mul m 1024) _ h5 in
      let high = (within 8 2048 m sized).1 in
      let same : kib ≡ m * 1024 = cc (product, checked_kib m high) in
      let (accepted, h7) = bail_if-eq-ok (host.argon2_params kib kdf.iterations p 32) _ _ h6 in
      record {
        memory_mib = m;
        parallelism = p;
        kind = k;
        iterations_low = (within 1 100 kdf.iterations rounds).0;
        iterations_high = (within 1 100 kdf.iterations rounds).1;
        memory = memory;
        memory_low = (within 8 2048 m sized).0;
        memory_high = high;
        threads = threads;
        threads_low = (within 1 16 p parallel).0;
        threads_high = (within 1 16 p parallel).1;
        accepted = subst (λ x. host.argon2_params x kdf.iterations p 32 ≡ true) same accepted;
        derived =
            subst
              (λ x.
                host.argon2 x kdf.iterations p (utf8 password) (host.sha256 (salt_of host email))
                ≡ some key)
              same (expected _ h7);
      }
    where
      expected : (o : Option Bytes) → expect "Argon2 derivation failed" o ≡ ok key → o ≡ some key
      expected (some b) e = cc
      expected none e = cc

  -- A master key is derived exactly under accepted parameters: PBKDF2 with 5,000 to 10,000,000
  -- iterations, or Argon2id with 1 to 100 iterations, 8 to 2,048 MiB and 1 to 16 threads, all of them
  -- reported and accepted by the library. It is then that function's output for the password and the
  -- salt of the email address, and the memory size in KiB does not wrap around.
  pub derive_master_key_iff :
      (password email : Text) (kdf : KdfParams) (key : Bytes)
      → (derive_master_key host password email kdf ≡ ok key)
        ↔ (Pbkdf2 password email kdf key ⊎ Argon2 password email kdf key)
  unfolding derive_master_key
  derive_master_key_iff password email kdf key = (
    λ h. elim (Bool-cases (kdf.kdf == 0)) [
      | inl zeroth ↦ inl (
          (derive_pbkdf2_iff password email kdf key ((==_iff kdf.kdf 0).0 zeroth)).0
            (rw zeroth at h))
      | inr not_zeroth ↦ elim (Bool-cases (kdf.kdf == 1)) [
        | inl first ↦ inr (
            derive_argon2_sound password email kdf key ((==_iff kdf.kdf 1).0 first)
              (rw (not_zeroth, first) at h))
        | inr neither ↦ absurd (cc (rw (not_zeroth, neither) at h))
      ]
    ],
    λ c. elim c [
      | inl r ↦
          rw ((==_iff kdf.kdf 0).1 r.kind) ((derive_pbkdf2_iff password email kdf key r.kind).1 r)
      | inr r ↦ rw r.kind (derive_argon2_complete password email kdf key r)
    ],
  )
