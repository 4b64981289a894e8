-- ===== src/Secret/Body.antt =====
-- src/secret_source.rs: `json_capped_limit`. A response's body is the sequence of what `chunk()`
-- gives; the JSON decoder is a parameter.
use tapwarden.Base.{
  ℕ, ◌+◌, ◌*◌, ◌≤◌, ◌≡◌, ◌↔◌, refl, Option, none, some, [], ◌++◌, Bytes, Result, ok, err, message,
  expect, arith, subst, sym, ap, ◌∙◌, ok-injective, Option-cases, inl, inr, length, length-append,
  ltb, if◌then◌else◌,
}
use tapwarden.Base.Try.{◌>>=◌}
use mathlib.Core.List.{append_assoc, append-nil}

abbrev pub max_response_bytes : ℕ
max_response_bytes = 1024 * 1024

abbrev pub max_sync_response_bytes : ℕ
max_sync_response_bytes = 64 * 1024 * 1024

pub data Chunks : Type 0 where
  -- the end of the body, and a read error
  end : Chunks
  broken : Chunks
  chunk : Bytes → Chunks → Chunks

-- The loop, with the bytes read so far. The test comes before the chunk is kept.
unfoldable pub read_capped : ℕ → Bytes → Chunks → Result Bytes
read_capped limit body end = ok body
read_capped limit body broken = err (message "failed to read the response body")
read_capped limit body (chunk c rest) =
    let more = read_capped limit (body ++ c) rest in
    if ltb limit (length body + length c)
    then err (message "response body exceeds the size limit")
    else more

module _ {T : Type 0} (from_slice : Bytes → Option T) where
  unfoldable pub json_capped_limit : Chunks → ℕ → Result T
  unfolding read_capped
  json_capped_limit response limit = do
    body ← read_capped limit [] response
    expect "unexpected response shape" (from_slice body)

  unfoldable pub json_capped : Chunks → Result T
  unfolding json_capped_limit
  json_capped response = json_capped_limit response max_response_bytes

-- The whole body, if it ends without an error.
abbrev pub whole : Chunks → Option Bytes
whole end = some []
whole broken = none
whole (chunk c rest) = elim (whole rest) [ some b ↦ some (c ++ b) | none ↦ none ]

read_capped_ok :
    (limit : ℕ) (body : Bytes) (response : Chunks) (r : Bytes)
    → length body ≤ limit
    → read_capped limit body response ≡ ok r
    → (b : Bytes) × (whole response ≡ some b) × (r ≡ body ++ b) × (length r ≤ limit)
unfolding read_capped
read_capped_ok limit body end r fits h =
    ([], refl, rw append-nil (cc), subst (λ l. length l ≤ limit) (ok-injective h) fits)
read_capped_ok limit body broken r fits h = cc
read_capped_ok limit body (chunk c rest) r fits h =
    let (b, w, e, n) =
      read_capped_ok limit (body ++ c) rest r (ground (arith, length-append body c))
        (ground arith) in
    (c ++ b, rw w refl, rw append_assoc at e, n)

ok_read_capped :
    (limit : ℕ) (body : Bytes) (response : Chunks) (b : Bytes)
    → whole response ≡ some b
    → length (body ++ b) ≤ limit
    → read_capped limit body response ≡ ok (body ++ b)
unfolding read_capped
ok_read_capped limit body end b w n =
    let none_left : [] ≡ b = cc in rw (sym none_left, append-nil) refl
ok_read_capped limit body broken b w n = cc
ok_read_capped limit body (chunk c rest) b w n = elim (Option-cases (whole rest)) [
  | inl cut ↦ absurd (cc (rw cut at w))
  | inr (d, f) ↦
      let e : c ++ d ≡ b = cc in
      let all : body ++ b ≡ (body ++ c) ++ d =
        ap (λ x. body ++ x) (sym e) ∙ sym (append_assoc body c d) in
      let fits : length ((body ++ c) ++ d) ≤ limit = subst (λ l. length l ≤ limit) all n in
      rw all (
        ground (
          arith,
          ok_read_capped limit (body ++ c) rest d f fits,
          length-append (body ++ c) d,
          length-append body c,
        ))
]

-- Reading succeeds exactly when the body ends without an error and is at most `limit` bytes long,
-- and then the result is the whole body: nothing is cut off, and nothing longer gets through.
pub read_capped_iff :
    (limit : ℕ) (response : Chunks) (b : Bytes)
    → (read_capped limit [] response ≡ ok b) ↔ ((whole response ≡ some b) × (length b ≤ limit))
read_capped_iff limit response b = (
  λ h. let (d, w, e, n) = read_capped_ok limit [] response b (omega arith) h in (rw e w, n),
  λ (w, n). ok_read_capped limit [] response b w n,
)
