-- ===== src/Obo.antt =====
-- pkg/obo/types.go, and resolveScope of issuer.go: the claims of on-behalf-of tokens and their scopes.
pub mod User
pub mod Sdjwt
pub mod Delegation
pub mod ScopeLaws
pub mod UserLaws
pub mod SdjwtLaws
pub mod Disclosures
pub mod Presenting
pub mod DelegationLaws
pub mod Flow
use ai_agent_security.Base.{
  Str, bytes, ◌==◌, is_empty, fields, join, List, [], ◌∷◌, Option, Bool, true, false, Result, ok,
  err, ◌>>=◌, ◌>>◌, guard, ℤ, minutes, is_zero, if◌then◌else◌,
}
use ai_agent_security.Jwt.{RegisteredClaims}
use ai_agent_security.Identity.Errors
use ai_agent_security.Tokens

abbrev pub obo_token_type : Str
obo_token_type = bytes "obo+jwt"

abbrev pub user_token_type : Str
user_token_type = bytes "user+jwt"

abbrev pub sd_user_token_type : Str
sd_user_token_type = bytes "user+sd-jwt"

abbrev pub default_obo_ttl : ℤ
default_obo_ttl = minutes 5

abbrev pub default_user_ttl : ℤ
default_user_ttl = minutes 60

pub record ActorClaims : Type 0 where
  pub subject : Str

-- `act` is none where the pointer is nil.
pub record OboClaims : Type 0 where
  pub registered : RegisteredClaims
  pub act : Option ActorClaims
  pub scope : Str
  pub email : Str

pub record UserClaims : Type 0 where
  pub registered : RegisteredClaims
  pub scope : Str
  pub email : Str

-- The errors of the package, a constructor for each place that makes one.
pub data Error : Type 0 where
  sub_required audience_required token_required sign_failed : Error
  invalid_token : Tokens.Error → Error
  -- sdjwt.go
  presentation_required missing_separator : Error
  marshal_disclosure unknown_digest decode_disclosure bad_disclosure : Error
  -- issuer.go
  agent_token_required user_token_required target_required : Error
  agent_refused : Errors.Error → Error
  no_sd_validator : Error
  scope_not_granted : Str → Error
  -- validator.go
  missing_sub missing_act : Error

-- `if ttl == 0 { ttl = default }`
abbrev pub ttl_or : ℤ → ℤ → ℤ
ttl_or default_ttl ttl = if is_zero ttl then default_ttl else ttl

-- A set of texts as Go's `map[string]bool`, filled from a list: `member` is `set[s]`.
unfoldable pub member : Str → List Str → Bool
member s [] = false
member s (t ∷ ts) = if t == s then true else member s ts

-- The loop of resolveScope over the requested words.
unfoldable pub check_scopes : List Str → List Str → Result Error (Unit {0})
check_scopes granted [] = ok tt
check_scopes granted (s ∷ ss) = do
  guard (member s granted) (scope_not_granted s)
  check_scopes granted ss

-- resolveScope
unfoldable pub resolve_scope : Str → Str → Result Error Str
resolve_scope granted requested =
    if is_empty requested
    then ok granted
    else check_scopes (fields granted) (fields requested) >> ok (join 32 (fields requested))
