-- ===== src/Txntoken.antt =====
-- pkg/txntoken: transaction tokens, claims.go, issuer.go, validator.go and helpers.go.
pub mod Laws
use ai_agent_security.Base.{
  Str, bytes, is_empty, not, List, [], ◌∷◌, Option, Result, ok, ◌>>=◌, ◌>>◌, guard, require,
  map_err, Map, Bool, true, false, Time, ℤ, minutes, is_zero, is_nonpos, if◌then◌else◌,
}
use ai_agent_security.Keys.{PublicKey, PrivateKey}
use ai_agent_security.Keys.Base64.{encode}
use ai_agent_security.Platform.{Platform}
use ai_agent_security.Jwt.{RegisteredClaims, Jwt}
use ai_agent_security.Memory.{hex_encode}
use ai_agent_security.Tokens
use ai_agent_security.Tokens.{registered_for, typed_header, issuer_options, parse_typed}

abbrev pub token_type : Str
token_type = bytes "txntoken+jwt"

abbrev pub default_ttl : ℤ
default_ttl = minutes 5

-- ActorClaims: the current actor, alone or with the prior actors.
pub data ActorClaims : Type 0 where
  actor : Str → ActorClaims
  actor_after : Str → ActorClaims → ActorClaims

pub record RequestContext : Type 0 where
  pub req_ip : Str
  pub req_wl : Str

pub record AuthorizationDetail : Type 0 where
  pub kind : Str
  pub claims : Map Str

pub record Claims : Type 0 where
  pub registered : RegisteredClaims
  pub txn : Str
  pub act : Option ActorClaims
  pub req_ctx : Option RequestContext
  pub az_details : List AuthorizationDetail

pub data Error : Type 0 where
  subject_required audience_required sign_failed token_required missing_txn : Error
  invalid_token : Tokens.Error → Error

pub record Issuer : Type 0 where
  pub issuer_id : Str
  pub key : PrivateKey
  pub ttl : ℤ

-- NewIssuer
unfoldable pub new_issuer : Str → PrivateKey → ℤ → Issuer
new_issuer issuer_id key ttl = record {
  issuer_id = issuer_id;
  key = key;
  ttl = if is_nonpos ttl then default_ttl else ttl;
}

pub record IssueOptions : Type 0 where
  pub subject : Str
  pub audiences : List Str
  pub txn_id : Str
  pub actor : Option ActorClaims
  pub req_ctx : Option RequestContext
  pub az_details : List AuthorizationDetail
  pub ttl : ℤ

pub record Validator : Type 0 where
  pub issuer_id : Str
  pub pub_key : PublicKey

-- `len(audiences) == 0`
abbrev is_nil : List Str → Bool
is_nil [] = true
is_nil (a ∷ as_) = false

-- The id of the transaction: the one given, or the random bytes in hexadecimal.
unfoldable pub txn_id_of : IssueOptions → Str → Str
txn_id_of opts drawn = if is_empty opts.txn_id then hex_encode drawn else opts.txn_id

-- The lifetime: the one given, or that of the issuer if it is zero.
unfoldable pub ttl_of : Issuer → IssueOptions → ℤ
ttl_of s opts = if is_zero opts.ttl then s.ttl else opts.ttl

-- Hash
unfoldable pub hash : Platform → Str → Str
hash std token = encode (std.sha256 token)

module _ (jwt : Jwt Claims) where
  -- The claims that Issue signs; no id is set.
  unfoldable pub issued_claims : Issuer → IssueOptions → Time → Str → Claims
  unfolding ttl_of
  issued_claims s opts now drawn = record {
    registered = registered_for jwt s.issuer_id opts.subject opts.audiences now (ttl_of s opts) [];
    txn = txn_id_of opts drawn;
    act = opts.actor;
    req_ctx = opts.req_ctx;
    az_details = opts.az_details;
  }

  -- Issuer.Issue, with the random bytes `drawn`
  unfoldable pub issue : Issuer → IssueOptions → Time → Str → Result Error Str
  issue s opts now drawn = do
    guard (not (is_empty opts.subject)) subject_required
    guard (not (is_nil opts.audiences)) audience_required
    require (jwt.sign (typed_header token_type) (issued_claims s opts now drawn) s.key) sign_failed

  -- Validator.Validate
  unfoldable pub validate : Validator → Str → Time → Result Error Claims
  validate v token now = do
    guard (not (is_empty token)) token_required
    claims ←
        map_err invalid_token
          (parse_typed jwt (issuer_options v.issuer_id) token_type v.pub_key now token)
    guard (not (is_empty claims.txn)) missing_txn
    ok claims
