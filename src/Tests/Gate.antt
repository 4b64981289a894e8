-- ===== src/Tests/Gate.antt =====
-- src/authorizer.rs at concrete inputs: a world is a clock's reading, and a prompt takes one
-- nanosecond.
use tapwarden.Base.{List, ℕ, ◌+◌, ◌≡◌, ◌↔◌, true, false, none, some, [], ◌∷◌, text_key, ok}
use tapwarden.Base.Time.{Clock}
use tapwarden.Authorizer.{AuthContext, sign, Authorizer}
use tapwarden.Authorizer.Grace.{GraceState}
use tapwarden.Authorizer.Grace.Spec.{approve_all, Promises, windows, approve_all-Promises}
use tapwarden.Authorizer.Yubikey
use tapwarden.Authorizer.Yubikey.{Assertion, FidoHost, Touched, yubikey_approve_iff}

abbrev clock : Clock ℕ
clock = record { instant = λ w. (w, w); wall = λ w. (w, w) }

abbrev yes : Authorizer ℕ
yes = record { approve = λ ctx w. (ok true, w + 1) }

abbrev touch : AuthContext
touch = sign [] (1 ∷ []) none

abbrev fresh : GraceState ℕ
fresh = record { last = []; world = 5 }

-- One key, which answers with one touched assertion.
abbrev token_key : FidoHost ℕ ℕ ℕ ℕ
token_key = record {
  create = λ w. (ok 1, w + 1);
  create_challenge = λ w. (w ∷ [], w + 1);
  get_assertion = λ d rp challenge id w. (
    some (
        record {
          credential_id = id;
          user_present_result = true;
          attested_credential_data_included = false;
          rest = 0;
        }
        ∷ []),
    w + 1,
  );
  verify_assertion = λ rp key challenge a. true;
}

yubikey_approve_iff_example : ((Yubikey.approve token_key (9 ∷ []) 2 touch 0).0 ≡ ok true) ↔ (
    (d : ℕ) × ((token_key.create 0).0 ≡ ok d)
    × ((a : Assertion ℕ) × Touched token_key (9 ∷ []) 2 d (token_key.create 0).1 a))
yubikey_approve_iff_example = yubikey_approve_iff token_key (9 ∷ []) 2 touch 0

-- Three requests, the last one long after the first: two prompts and one request inside the window.
abbrev requests : List ((ℕ → ℕ) × AuthContext)
requests = (λ w. w, touch) ∷ (λ w. w + 10, touch) ∷ (λ w. w + 90, touch) ∷ []

approve_all-Promises_example :
    Promises clock yes 60 requests
      (windows clock yes 60 fresh)
      (approve_all clock yes 60 requests fresh).0
      (windows clock yes 60 (approve_all clock yes 60 requests fresh).1)
approve_all-Promises_example = approve_all-Promises clock yes 60 requests fresh
