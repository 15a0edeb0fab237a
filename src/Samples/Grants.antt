-- ===== src/Samples/Grants.antt =====
-- A transaction token, a grant for another domain and a client authentication.
use native.Mathlib.Decide.{ℕ_discrete}
use ai_agent_security.Base.{
  inl, eq_refl, ◌+◌, ◌*◌, bytes, [], ◌∷◌, none, some, ok, ◌≡◌, refl, pos, minutes, second, arith,
}
use ai_agent_security.Keys.{PrivateKey}
use ai_agent_security.Keys.Base64.{encode}
use ai_agent_security.Jwt.{Header, Jwt}
use ai_agent_security.Identity.Token
use ai_agent_security.Identity.Token.{new_agent_validator}
use ai_agent_security.Tokens.{typed_header}
use ai_agent_security.Txntoken
use ai_agent_security.Identitychaining
use ai_agent_security.Spiffeclientauth.{
  jwt_bearer, AuthRequest, AccessToken, new_authenticator, seconds_of, authenticate,
}
use ai_agent_security.Spiffeclientauth.Laws.{IsClient, authenticate-IsClient}
use ai_agent_security.Samples.OneToken.{
  Signed, sample_jwt, sample_jwt-IsSound, sample_jwt-IsComplete, sample_sign_self,
}
use ai_agent_security.Samples.Stubs.{std, base_point, base_key}
use ai_agent_security.Samples.Agents.{
  signed_at, agent_id, agent_jwt, agent_token, agent_validator, validate-agent_token, same_agent,
  agent_signed,
}

abbrev txn_issuer : Txntoken.Issuer
txn_issuer = record { issuer_id = bytes "tts"; key = base_key; ttl = minutes 5 }

abbrev txn_options : Txntoken.IssueOptions
txn_options = record {
  subject = bytes "user:ann";
  audiences = bytes "a" ∷ [];
  txn_id = bytes "t7";
  actor = some (Txntoken.actor agent_id);
  req_ctx = none;
  az_details = [];
  ttl = pos 0;
}

abbrev txn_claims : Txntoken.Claims
txn_claims = record {
  registered = record {
    issuer = bytes "tts";
    subject = bytes "user:ann";
    audience = bytes "a" ∷ [];
    expires_at = some (signed_at + 5 * (60 * second));
    not_before = none;
    issued_at = some signed_at;
    id = [];
  };
  txn = bytes "t7";
  act = some (Txntoken.actor agent_id);
  req_ctx = none;
  az_details = [];
}

abbrev txn_signed : Signed Txntoken.Claims
txn_signed = record {
  header = typed_header Txntoken.token_type;
  claims = txn_claims;
  signer = base_key;
  token = bytes "txn";
}

same_txn : Discrete (Header × Txntoken.Claims × PrivateKey)
same_txn = hlevel ℕ_discrete

abbrev txn_jwt : Jwt Txntoken.Claims
txn_jwt = sample_jwt (λ c. c.registered) same_txn txn_signed

issued_txn : Txntoken.issue txn_jwt txn_issuer txn_options signed_at (bytes "r") ≡ ok (bytes "txn")
unfolding Txntoken.issue Txntoken.issued_claims Txntoken.txn_id_of Txntoken.ttl_of
issued_txn = rw (sample_sign_self (λ c. c.registered) same_txn txn_signed) refl

validate-issue_txn_example :
    (c : Txntoken.Claims) × (Txntoken.validate txn_jwt
        (record { issuer_id = bytes "tts"; pub_key = base_point })
        (bytes "txn")
        (signed_at + 5)
      ≡ ok c)
    × Txntoken.Laws.IsIssued txn_jwt txn_issuer txn_options (minutes 5) signed_at (bytes "r") c
validate-issue_txn_example =
    Txntoken.Laws.validate-issue_txn txn_jwt txn_issuer txn_options (minutes 5) signed_at
      (signed_at + 5) (bytes "r") (bytes "txn")
      (sample_jwt-IsComplete (λ c. c.registered) same_txn txn_signed) issued_txn (λ e. cc e)
      (λ e. cc e) (inl (refl, refl)) (omega arith) (omega arith)

abbrev grant_claims : Identitychaining.GrantClaims
grant_claims = record {
  registered = record {
    issuer = bytes "a";
    subject = agent_id;
    audience = bytes "b" ∷ [];
    expires_at = some (signed_at + 6 + 5 * (60 * second));
    not_before = none;
    issued_at = some (signed_at + 6);
    id = bytes "g1";
  };
  act = none;
}

abbrev grant_signed : Signed Identitychaining.GrantClaims
grant_signed = record {
  header = typed_header Identitychaining.grant_token_type;
  claims = grant_claims;
  signer = base_key;
  token = bytes "grant";
}

same_grant : Discrete (Header × Identitychaining.GrantClaims × PrivateKey)
same_grant = hlevel ℕ_discrete

abbrev grant_jwt : Jwt Identitychaining.GrantClaims
grant_jwt = sample_jwt (λ c. c.registered) same_grant grant_signed

abbrev grant_issuer : Identitychaining.GrantIssuer
grant_issuer = record {
  issuer_id = bytes "a";
  key = base_key;
  agent_validator = agent_validator;
  ttl = minutes 5;
}

abbrev request : AuthRequest
request = record {
  client_assertion = agent_token;
  client_assertion_type = jwt_bearer;
  scope = bytes "read";
}

abbrev access : AccessToken
access = record {
  token = [];
  token_type = bytes "Bearer";
  expires_in = pos 3_600;
  scope = bytes "read";
  sub = agent_id;
}

given :
    authenticate std agent_jwt
      (new_authenticator (bytes "as") (new_agent_validator (bytes "idp") base_point []) (pos 0))
      request
      (signed_at + 5)
      []
    ≡ ok access
unfolding authenticate new_authenticator seconds_of encode
given = rw (validate-agent_token, eq_refl jwt_bearer) refl

authenticate-IsClient_example :
    IsClient std agent_jwt
      (sample_jwt-IsSound (λ c. c.registered) same_agent agent_signed)
      (bytes "idp")
      base_point
      (minutes 60)
      request
      (signed_at + 5)
      []
      access
authenticate-IsClient_example =
    authenticate-IsClient std agent_jwt
      (sample_jwt-IsSound (λ c. c.registered) same_agent agent_signed) (bytes "as") (bytes "idp")
      base_point [] (pos 0) request (signed_at + 5) [] access given
