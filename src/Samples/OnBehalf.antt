-- ===== src/Samples/OnBehalf.antt =====
-- An on-behalf-of token for the presentation of Samples/Delegations and the agent of Samples/Agents.
use native.Mathlib.Decide.{ℕ_discrete}
use ai_agent_security.Base.{
  ◌+◌, ◌*◌, bytes, ◌==◌, join, fields, contains_str, has_prefix, lookup, true, [], ◌∷◌, none, some,
  ok, ◌≡◌, refl, minutes, second, if◌then◌else◌, arith,
}
use ai_agent_security.Keys.{PrivateKey}
use ai_agent_security.Jwt.{Header}
use ai_agent_security.Identity.Token.{keyfunc_for}
use ai_agent_security.Tokens.{parse_typed, typed_header}
use ai_agent_security.Obo.{
  user_token_type, obo_token_type, OboClaims, UserClaims, member, resolve_scope, check_scopes,
}
use ai_agent_security.Obo.Sdjwt.{build_sd_jwt, select, present}
use ai_agent_security.Obo.Delegation.{
  Jwts, OboIssuer, Instants, OboValidator, ValidateResult, user_context, sd_user_context,
  obo_claims, issue_obo, validate_obo,
}
use ai_agent_security.Obo.ScopeLaws.{Grants}
use ai_agent_security.Obo.DelegationLaws.{
  IsIssued, IsVouched, issue_obo-IsDelegated, IsObo, validate_obo-IsObo,
}
use ai_agent_security.Obo.Flow.{validate_obo-issue_sd}
use ai_agent_security.Samples.OneToken
use ai_agent_security.Samples.OneToken.{
  Signed, sample_jwt, sample_parse, sample_jwt-IsSound, sample_jwt-IsComplete, sample_sign_self,
  same_key, before, since, is_met, all_met,
}
use ai_agent_security.Samples.Stubs.{std, base_point, base_key}
use ai_agent_security.Samples.Texts.{email_salt, name_salt, texts_json, texts_json-IsFaithful}
use ai_agent_security.Samples.Agents.{
  signed_at, agent_id, agent_jwt, agent_token, agent_validator, agent, validate-agent_token,
}
use ai_agent_security.Samples.Delegations.{
  provider, same_user, user_signed, user_jwt, user_token, issued_user, idp_validator,
  validate-presented,
}

-- A plain user token that plays no part.
abbrev plain_claims : UserClaims
plain_claims = record {
  registered = record {
    issuer = bytes "idp";
    subject = bytes "user:bob";
    audience = bytes "as" ∷ [];
    expires_at = none;
    not_before = none;
    issued_at = none;
    id = [];
  };
  scope = [];
  email = [];
}

abbrev plain_signed : Signed UserClaims
plain_signed = record {
  header = typed_header user_token_type;
  claims = plain_claims;
  signer = base_key;
  token = bytes "plain";
}

same_plain : Discrete (Header × UserClaims × PrivateKey)
same_plain = hlevel ℕ_discrete

abbrev claims : OboClaims
claims = record {
  registered = record {
    issuer = bytes "as";
    subject = bytes "user:ann";
    audience = bytes "calendar" ∷ [];
    expires_at = some (signed_at + 6 + 5 * (60 * second));
    not_before = none;
    issued_at = some (signed_at + 6);
    id = bytes "o1";
  };
  act = some (record { subject = agent_id });
  scope = bytes "read";
  email = bytes "a@b";
}

abbrev obo_signed : Signed OboClaims
obo_signed = record {
  header = typed_header obo_token_type;
  claims = claims;
  signer = base_key;
  token = bytes "obo";
}

same_obo : Discrete (Header × OboClaims × PrivateKey)
same_obo = hlevel ℕ_discrete

abbrev jwts : Jwts
jwts = record {
  agent = agent_jwt;
  user = sample_jwt (λ c. c.registered) same_plain plain_signed;
  sd_user = user_jwt;
  obo = sample_jwt (λ c. c.registered) same_obo obo_signed;
}

abbrev server : OboIssuer
server = record {
  issuer_id = bytes "as";
  key = base_key;
  agent_validator = agent_validator;
  user_validator = record { issuer_id = bytes "idp"; pub_key = base_point };
  sd_user_validator = some idp_validator;
  ttl = minutes 5;
}

abbrev clock : Instants
clock = record { agent_at = signed_at + 5; user_at = signed_at + 5; issued_at = signed_at + 6 }

has_tilde : contains_str (present user_token (bytes "email" ∷ [])) (126 ∷ []) ≡ true
unfolding contains_str has_prefix present build_sd_jwt select join member ◌==◌
has_tilde = refl

known_user :
    user_context std texts_json jwts server (present user_token (bytes "email" ∷ [])) clock.user_at
    ≡ ok (record { subject = bytes "user:ann"; scope = bytes "read write"; email = bytes "a@b" })
unfolding user_context sd_user_context lookup ◌==◌
known_user = rw (has_tilde, validate-presented) refl

granted : resolve_scope (bytes "read write") (bytes "read") ≡ ok (bytes "read")
unfolding resolve_scope check_scopes member fields join ◌==◌
granted = refl

issued_obo :
    issue_obo std texts_json jwts server agent_token
      (present user_token (bytes "email" ∷ []))
      (bytes "calendar")
      (bytes "read")
      clock
      (bytes "o1")
    ≡ ok (bytes "obo")
unfolding issue_obo obo_claims present build_sd_jwt join member ◌==◌
issued_obo =
    rw (validate-agent_token, known_user, granted)
      (rw (sample_sign_self (λ c. c.registered) same_obo obo_signed) refl)

abbrev resource : OboValidator
resource = record { issuer_id = bytes "as"; pub_key = base_point }

abbrev result : ValidateResult
result = record {
  claims = claims;
  user_id = bytes "user:ann";
  agent_id = agent_id;
  scope = bytes "read";
  email = bytes "a@b";
}

validate-obo :
    validate_obo jwts.obo resource (bytes "obo") (bytes "calendar") (signed_at + 7) ≡ ok result
unfolding validate_obo parse_typed sample_parse keyfunc_for same_key OneToken.member before since
    is_met all_met ◌==◌
validate-obo = refl

issue_obo-IsDelegated_example :
    (i : IsIssued std texts_json jwts server agent_token
      (present user_token (bytes "email" ∷ []))
      (bytes "calendar")
      (bytes "read")
      clock
      (bytes "o1")
      (bytes "obo"))
    × IsVouched std texts_json jwts
        (sample_jwt-IsSound (λ c. c.registered) same_plain plain_signed)
        (sample_jwt-IsSound (λ c. c.registered) same_user user_signed)
        server
        (present user_token (bytes "email" ∷ []))
        (signed_at + 5)
        i.user
issue_obo-IsDelegated_example =
    issue_obo-IsDelegated std texts_json jwts
      (sample_jwt-IsSound (λ c. c.registered) same_plain plain_signed)
      (sample_jwt-IsSound (λ c. c.registered) same_user user_signed) server agent_token
      (present user_token (bytes "email" ∷ [])) (bytes "calendar") (bytes "read") clock (bytes "o1")
      (bytes "obo") issued_obo

validate_obo-IsObo_example :
    IsObo jwts.obo
      (sample_jwt-IsSound (λ c. c.registered) same_obo obo_signed)
      resource
      (bytes "obo")
      (bytes "calendar")
      (signed_at + 7)
      result
validate_obo-IsObo_example =
    validate_obo-IsObo jwts.obo (sample_jwt-IsSound (λ c. c.registered) same_obo obo_signed)
      resource (bytes "obo") (bytes "calendar") (signed_at + 7) result validate-obo

validate_obo-issue_sd_example :
    (r : ValidateResult) × (validate_obo jwts.obo resource
        (bytes "obo")
        (bytes "calendar")
        (signed_at + 7)
      ≡ ok r)
    × (r.user_id ≡ bytes "user:ann")
    × (r.agent_id ≡ agent_id)
    × Grants (bytes "read write") (bytes "read") r.scope
    × (r.email ≡ (if member (bytes "email") (bytes "email" ∷ []) then bytes "a@b" else []))
validate_obo-issue_sd_example =
    validate_obo-issue_sd std texts_json jwts server provider (bytes "user:ann") (bytes "a@b")
      (bytes "Ann") (bytes "read write") signed_at (email_salt, name_salt) user_token
      (bytes "email" ∷ []) agent_token (bytes "calendar") (bytes "read") agent clock (bytes "o1")
      (bytes "obo") (signed_at + 7) texts_json-IsFaithful
      (sample_jwt-IsComplete (λ c. c.registered) same_user user_signed)
      (sample_jwt-IsComplete (λ c. c.registered) same_obo obo_signed) issued_user (omega arith)
      (omega arith) refl refl (omega arith) (omega arith) (omega arith) refl validate-agent_token
      issued_obo (λ e. cc) (λ e. cc) (λ e. cc) (omega arith) (omega arith)

-- A no-break space is white space as well.
no_break_space : fields (97 ∷ 194 ∷ 160 ∷ 98 ∷ []) ≡ (97 ∷ []) ∷ (98 ∷ []) ∷ []
unfolding fields
no_break_space = refl
