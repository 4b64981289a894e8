-- ===== src/Setup.antt =====
-- src/setup.rs: the parts of the setup wizard that decide something: which items can be served, which
-- of them the user selected, which answers mean yes, and which values can be written to the file.
pub mod Selection
pub mod Quoting
pub mod Terminal
pub mod Server
pub mod Files
pub mod Wizard
use tapwarden.Base.{
  ℕ, zero, suc, ◌+◌, ◌-◌, ◌*◌, ◌^◌, Bool, true, false, not, ◌&&◌, ◌||◌, Option, none, some, List,
  [], ◌∷◌, ◌++◌, Text, text, text_eq, trim, split, starts_with, to_ascii_lowercase, is_whitespace,
  is_control, contains_char, any, is_empty, decimal, Result, ok, err, message, context, expect,
  bail_if, option_is_some, leb, ltb, ◌==◌, if◌then◌else◌,
}
use tapwarden.Base.Try.{◌>>=◌, ◌>>◌}
use tapwarden.Secret.Crypto.{Crypto, SymKey}
use tapwarden.Secret.EncString
use tapwarden.Vaultwarden.Cipher.{cipher_type_ssh_key, unwrap_or, resolve_cipher_key}
use tapwarden.Config.{CredentialSource, env, keychain}

pub record SyncCipher : Type 0 where
  pub id : ℕ
  pub atype : ℕ
  pub organization_id : Option Text
  pub key : Option Text
  pub name : Text

module _ (crypto : Crypto) where
  unfoldable pub item_name : SyncCipher → SymKey → Result (ℕ × Text)
  item_name c user_key = do
    own ← resolve_cipher_key crypto c.key user_key
    parsed ← EncString.parse crypto c.name
    name ←
        context "cipher name decryption"
          (EncString.decrypt_to_string crypto parsed (unwrap_or user_key own))
    ok (c.id, name)

  abbrev with_rest : Result (ℕ × Text) → Result (List (ℕ × Text)) → Result (List (ℕ × Text))
  with_rest first rest = first >>= λ x. rest >>= λ xs. ok (x ∷ xs)

  -- The first error ends the list.
  unfoldable pub ssh_key_items : List SyncCipher → SymKey → Result (List (ℕ × Text))
  unfolding item_name
  ssh_key_items [] user_key = ok []
  ssh_key_items (c ∷ cs) user_key =
      let rest = ssh_key_items cs user_key in
      if c.atype == cipher_type_ssh_key && not (option_is_some c.organization_id)
      then with_rest (item_name c user_key) rest
      else rest

-- `str::parse::<usize>`: digits after an optional plus sign, of a value below 2^64.
unfoldable pub digits : ℕ → Text → Option ℕ
digits n [] = some n
digits n (c ∷ s) = if leb 48 c && leb c 57 then digits (n * 10 + (c - 48)) s else none

abbrev in_usize : Option ℕ → Option ℕ
in_usize none = none
in_usize (some n) = if ltb n (2 ^ 64) then some n else none

unfoldable pub parse_usize : Text → Option ℕ
unfolding digits
parse_usize [] = none
parse_usize (c ∷ s) = in_usize (digits 0 (if c == b'+' && not (is_empty s) then s else c ∷ s))

abbrev pub member : ℕ → List ℕ → Bool
member i [] = false
member i (x ∷ xs) = x == i || member i xs

abbrev pub with_index : ℕ → List ℕ → List ℕ
with_index i l = if member i l then l else l ++ i ∷ []

-- `(0..n).collect()`
abbrev pub below : ℕ → List ℕ
below zero = []
below (suc n) = below n ++ n ∷ []

-- The loop over the parts, with the indices so far.
unfoldable pub select_parts : List Text → ℕ → List ℕ → Result (List ℕ)
select_parts [] len indices = ok indices
select_parts (part ∷ parts) len indices = do
  n ← expect "invalid selection: expected comma-separated numbers" (parse_usize (trim part))
  bail_if (n == 0 || ltb len n)
      ((text "invalid selection: numbers must be between 1 and " ++ decimal len) ∷ [])
  select_parts parts len (with_index (n - 1) indices)

abbrev select_trimmed : Text → ℕ → Result (List ℕ)
select_trimmed input len =
    if is_empty input then ok (below len) else select_parts (split b',' input) len []

unfoldable pub select_indices : Text → ℕ → Result (List ℕ)
unfolding select_parts
select_indices input len = select_trimmed (trim input) len

unfoldable pub validate_email : Text → Result (Unit {0})
validate_email email =
    bail_if
      (not (contains_char b'@' email)
        || any (λ c. is_whitespace c || c == b'"' || c == b'\\') email)
      (message "email must look like user@host")

unfoldable pub yaml_quoted : Text → Result Text
yaml_quoted value = do
  bail_if (any (λ c. c == b'"' || c == b'\\' || is_control c) value)
      (message "value contains characters that cannot be written to the config")
  ok (b'"' ∷ (value ++ b'"' ∷ []))

unfoldable pub answered_yes : Text → Bool → Bool
answered_yes answer true = not (starts_with (text "n") (to_ascii_lowercase (trim answer)))
answered_yes answer false =
    text_eq (to_ascii_lowercase (trim answer)) (text "y")
    || text_eq (to_ascii_lowercase (trim answer)) (text "yes")
