-- ===== src/Tests/Formats.antt =====
-- The formats of src/secret_source.rs at concrete inputs.
use tapwarden.Base.{
  ℕ, suc, zero, ◌+◌, ◌-◌, ◌≤◌, ◌≡◌, ◌↔◌, refl, true, false, Option, none, some, [], ◌∷◌, ◌++◌, Text,
  Bytes, text, text_eq, text_eq_iff, Result, ok, err, message, length, arith, contains_char, ap,
}
use tapwarden.Base.Try.{◌>>=◌}
use tapwarden.Base.Split.{Without}
use tapwarden.Secret.Crypto.{Crypto, SymKey}
use tapwarden.Secret.EncString
use tapwarden.Secret.EncString.{EncString, decrypt}
use tapwarden.Secret.EncString.Laws.{
  Encryptor, sealed, enc_string_parse_iff, decrypt_authentic, decrypt-parse-sealed,
}
use tapwarden.Secret.EncString.Laws as EncLaws
use tapwarden.Secret.Token
use tapwarden.Secret.Token.{AccessToken}
use tapwarden.Secret.Token.Laws.{access_token_parse_iff}
use tapwarden.Secret.Body.{Chunks, end, chunk, read_capped, whole, read_capped_iff}
use tapwarden.Secret.Endpoint.{Url, endpoint_of, service_urls}
use tapwarden.Secret.Endpoint.Laws.{Serves, service_urls_iff}

abbrev pub zeros : ℕ → Bytes
zeros zero = []
zeros (suc n) = 0 ∷ zeros n

-- An encoding that shifts every byte past the bar, a tag of zeros and a cipher that does nothing.
abbrev pub encode : Bytes → Text
encode [] = []
encode (b ∷ bs) = (b + 200) ∷ encode bs

abbrev pub decode : Text → Bytes
decode [] = []
decode (c ∷ cs) = (c - 200) ∷ decode cs

abbrev pub toy : Crypto
toy = record {
  b64_decode = λ t. ok (decode t);
  hmac = λ k m. zeros 32;
  hmac_verify = λ k m tag. text_eq tag (zeros 32);
  cbc_decrypt = λ k iv c. some c;
  hkdf_expand = λ prk info n. zeros n;
  from_utf8 = ok;
}

pub decode-encode : (b : Bytes) → decode (encode b) ≡ b
decode-encode [] = refl
decode-encode (b ∷ bs) = ground (arith, decode-encode bs)

encode_barless : (b : Bytes) → Without b'|' (encode b)
unfolding contains_char
encode_barless [] = refl
encode_barless (b ∷ bs) = ground (arith, encode_barless bs)

toy-Encryptor : Encryptor toy encode (λ k iv p. p)
toy-Encryptor = record {
  decodes = λ b. ap ok (decode-encode b);
  barless = encode_barless;
  mac_size = λ k m. refl;
  verifies = λ k m. (text_eq_iff (zeros 32) (zeros 32)).1 refl;
  decrypts = λ k iv p. refl;
}

abbrev pub some_key : SymKey
some_key = record { enc = zeros 32; mac = zeros 32 }

decrypt-parse-sealed_example :
    (EncString.parse toy (sealed toy encode (λ k iv p. p) some_key (zeros 16) (5 ∷ [])) >>= λ e.
    decrypt toy e some_key)
    ≡ ok (5 ∷ [])
decrypt-parse-sealed_example =
    decrypt-parse-sealed toy encode (λ k iv p. p) toy-Encryptor some_key (zeros 16) (5 ∷ []) refl

abbrev sample : EncString
sample = record { iv = zeros 16; data_bytes = 5 ∷ []; mac = zeros 32 }

enc_string_parse_iff_example :
    (EncString.parse toy (text "2.a|b|c") ≡ ok sample) ↔ EncLaws.Reads toy (text "2.a|b|c") sample
enc_string_parse_iff_example = enc_string_parse_iff toy (text "2.a|b|c") sample

decrypt_authentic_example :
    ((decrypt toy sample some_key ≡ ok (5 ∷ [])) ↔ (
      (toy.hmac_verify some_key.mac (sample.iv ++ sample.data_bytes) sample.mac ≡ true)
      × (toy.cbc_decrypt some_key.enc sample.iv sample.data_bytes ≡ some (5 ∷ []))))
    × (toy.hmac_verify some_key.mac (sample.iv ++ sample.data_bytes) sample.mac ≡ false
        → (cipher : Bytes → Bytes → Bytes → Option Bytes)
        → decrypt (record toy { cbc_decrypt = cipher }) sample some_key
          ≡ err (message "EncString MAC verification failed"))
decrypt_authentic_example = decrypt_authentic toy sample some_key (5 ∷ [])

abbrev uuid : Text → Result ℕ
uuid s = ok (length s)

abbrev token : AccessToken
token = record { client_id = 2; client_secret = text "s"; encryption_key = some_key }

access_token_parse_iff_example :
    (Token.parse toy uuid (text "0.id.s:k") ≡ ok token)
    ↔ Token.Reads toy uuid (text "0.id.s:k") token
access_token_parse_iff_example = access_token_parse_iff toy uuid (text "0.id.s:k") token

abbrev two_chunks : Chunks
two_chunks = chunk (1 ∷ 2 ∷ []) (chunk (3 ∷ []) end)

abbrev three : Bytes
three = 1 ∷ 2 ∷ 3 ∷ []

read_capped_iff_example :
    (read_capped 3 [] two_chunks ≡ ok three)
    ↔ ((whole two_chunks ≡ some three) × (length three ≤ 3))
read_capped_iff_example = read_capped_iff 3 two_chunks three

-- Every text is the host of an https URL.
abbrev as_host : Text → Result Url
as_host s = ok (record {
  scheme = text "https";
  host = some s;
  username = [];
  password = none;
  path = text "/";
  query = none;
  fragment = none;
})

service_urls_iff_example :
    (service_urls as_host (some (text "bitwarden.eu"))
      ≡ ok (text "https://identity.bitwarden.eu", text "https://api.bitwarden.eu"))
    ↔ Serves as_host
        (endpoint_of as_host (some (text "bitwarden.eu")))
        (text "https://identity.bitwarden.eu")
        (text "https://api.bitwarden.eu")
service_urls_iff_example =
    service_urls_iff as_host (some (text "bitwarden.eu")) (text "https://identity.bitwarden.eu")
      (text "https://api.bitwarden.eu")
