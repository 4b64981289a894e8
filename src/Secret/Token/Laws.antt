-- ===== src/Secret/Token/Laws.antt =====
-- Which texts `AccessToken::parse` accepts, and what it makes of them.
use mathlib.Core.List.{append_assoc}
use tapwarden.Base.{
  ℕ, ◌≡◌, ◌↔◌, refl, sym, ap, ◌∙◌, Option, none, some, List, [], ◌∷◌, ◌++◌, Text, Bytes, text,
  text_eq_iff, split, split_once, contains_char, join, Result, ok, err, expect, arith, length, All,
}
use tapwarden.Base.Try.{◌>>=◌}
use tapwarden.Base.Split.{
  Without, split-Without, split-append, split-pieces, join-split, split_once_iff, Without-append,
}
use tapwarden.Secret.Crypto.{Crypto, derive_access_token_key}
use tapwarden.Secret.Token.{AccessToken, parse_parts, parse, Reads}

module _ (crypto : Crypto) (parse_uuid : Text → Result ℕ) where
  -- The three pieces and the key part, as the parser's checks leave them.
  record Checked (version id_text secret key_text : Text) (t : AccessToken) : Type 0 where
    known : version ≡ text "0"
    same_secret : t.client_secret ≡ secret
    id_parses : parse_uuid id_text ≡ ok t.client_id
    seed_of :
        (seed : Bytes) × (crypto.b64_decode key_text ≡ ok seed)
        × (length seed ≡ 16)
        × (t.encryption_key ≡ derive_access_token_key crypto seed)

  parts_Checked :
      (v i s k : Text) (t : AccessToken)
      → parse_parts crypto parse_uuid k (v ∷ i ∷ s ∷ []) ≡ ok t
      → Checked v i s k t
  unfolding parse_parts
  parts_Checked v i s k t h = decoded (crypto.b64_decode k) refl
    where
      decoded : (r : Result Bytes) → crypto.b64_decode k ≡ r → Checked v i s k t
      decoded (err e) f = absurd (ground arith)
      decoded (ok seed) f = record {
        known = ground (arith, text_eq_iff v (text "0"));
        same_secret = ground arith;
        id_parses = ground arith;
        seed_of = (seed, f, ground arith, ground arith);
      }

  Checked-parts :
      (v i s k : Text) (t : AccessToken)
      → Checked v i s k t
      → parse_parts crypto parse_uuid k (v ∷ i ∷ s ∷ []) ≡ ok t
  unfolding parse_parts
  Checked-parts v i s k t c = ground (arith, text_eq_iff v (text "0"))

  -- The text before the colon, from its three pieces.
  abbrev dotted : Text → Text → Text → Text
  dotted v i s = v ++ b'.' ∷ (i ++ b'.' ∷ s)

  spelled :
      (i s k : Text)
      → dotted (text "0") i s ++ b':' ∷ k ≡ text "0." ++ (i ++ b'.' ∷ (s ++ b':' ∷ k))
  unfolding text
  spelled i s k = simp append_assoc

  split-dotted :
      (i s : Text)
      → Without b'.' i
      → Without b'.' s
      → split b'.' (dotted (text "0") i s) ≡ text "0" ∷ i ∷ s ∷ []
  split-dotted i s hi hs =
      rw
        (
          split-append b'.' (text "0") (i ++ b'.' ∷ s) (unfold text contains_char in refl),
          split-append b'.' i s hi,
          split-Without b'.' s hs,
        )
        refl

  colonless :
      (i s : Text) → Without b':' (dotted (text "0") i s) ↔ (Without b':' i × Without b':' s)
  unfolding text contains_char
  colonless i s = (
    λ h. ground (arith, Without-append b':' i (b'.' ∷ s)),
    λ h. ground (arith, Without-append b':' i (b'.' ∷ s)),
  )

  parse_inverts :
      (token : Text) (t : AccessToken)
      → parse crypto parse_uuid token ≡ ok t
      → Reads crypto parse_uuid token t
  unfolding parse join
  parse_inverts token t h = cut (split_once b':' token) refl h
    where
      three :
          (first k : Text) (l : List Text)
          → Without b':' first
          → token ≡ first ++ b':' ∷ k
          → All (Without b'.') l
          → join (b'.' ∷ []) l ≡ first
          → parse_parts crypto parse_uuid k l ≡ ok t
          → Reads crypto parse_uuid token t
      three first k [] n f w j p = cc
      three first k (a ∷ []) n f w j p = cc
      three first k (a ∷ b ∷ []) n f w j p = cc
      three first k (a ∷ b ∷ c ∷ d ∷ l) n f w j p = cc
      three first k (v ∷ i ∷ s ∷ []) n f w j p =
          let c = parts_Checked v i s k t p in
          let whole : first ≡ dotted (text "0") i s = sym j ∙ ap (λ x. dotted x i s) c.known in
          let apart = (colonless i s).0 (rw whole at n) in
          record {
            id_text = i;
            key_text = k;
            seed = c.seed_of.0;
            dots = (w.1.0, rw c.same_secret w.1.1.0);
            colons = (apart.0, rw c.same_secret apart.1);
            form = rw c.same_secret (f ∙ ap (λ x. x ++ b':' ∷ k) whole ∙ spelled i s k);
            id_parses = c.id_parses;
            key_decodes = c.seed_of.1;
            seed_size = c.seed_of.2;
            derived = c.seed_of.3;
          }

      cut :
          (o : Option (Text × Text))
          → split_once b':' token ≡ o
          → (expect "malformed access token: missing encryption key part" o >>= λ (first, k).
              parse_parts crypto parse_uuid k (split b'.' first))
            ≡ ok t
          → Reads crypto parse_uuid token t
      cut none f p = cc
      cut (some (first, k)) f p =
          let found = (split_once_iff b':' token first k).0 f in
          three first k (split b'.' first) found.0 found.1 (split-pieces b'.' first)
            (join-split b'.' first) p

  parse_accepts :
      (token : Text) (t : AccessToken)
      → Reads crypto parse_uuid token t
      → parse crypto parse_uuid token ≡ ok t
  unfolding parse
  parse_accepts token t r =
      let first = dotted (text "0") r.id_text t.client_secret in
      let cut : split_once b':' token ≡ some (first, r.key_text) =
        (split_once_iff b':' token first r.key_text).1 (
          (colonless r.id_text t.client_secret).1 r.colons,
          r.form ∙ sym (spelled r.id_text t.client_secret r.key_text),
        ) in
      rw (cut, split-dotted r.id_text t.client_secret r.dots.0 r.dots.1)
        (Checked-parts (text "0") r.id_text t.client_secret r.key_text t (record {
          known = refl;
          same_secret = refl;
          id_parses = r.id_parses;
          seed_of = (r.seed, r.key_decodes, r.seed_size, r.derived);
        }))

  -- The parser accepts exactly `0.<uuid>.<secret>:<base64 of 16 bytes>`, and what it returns are
  -- those parts, with the key derived from the seed.
  pub access_token_parse_iff :
      (token : Text) (t : AccessToken)
      → (parse crypto parse_uuid token ≡ ok t) ↔ Reads crypto parse_uuid token t
  access_token_parse_iff token t = (parse_inverts token t, parse_accepts token t)
