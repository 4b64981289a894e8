-- ===== src/Authorizer/Defs.antt =====
-- src/authorizer.rs: `AuthContext`, the `Authorizer` trait and `prompt_reason`.
use tapwarden.Base.{Bool, Option, none, some, ◌++◌, Text, text}
use tapwarden.Base.Action.{Action}

-- What the user is asked to approve.
pub data AuthContext : Type 0 where
  -- the key's comment, the key's fingerprint, the requesting process
  sign : Text → Text → Option Text → AuthContext
  unlock_credentials : Text → AuthContext

-- The trait: a gate over a world of prompts and hardware.
pub record Authorizer (W : Type 0) : Type 0 where
  pub approve : AuthContext → Action W Bool

unfoldable pub requester_name : Option Text → Text
requester_name (some r) = r
requester_name none = text "an unidentified process"

unfoldable pub prompt_reason : AuthContext → Text
unfolding requester_name
prompt_reason (sign comment fingerprint requester) =
    text "sign an SSH request with key \"" ++ comment ++ text "\" for " ++ requester_name requester
prompt_reason (unlock_credentials reason) = reason
