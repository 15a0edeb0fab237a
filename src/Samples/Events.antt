-- ===== src/Samples/Events.antt =====
-- A pushed security event.
use ai_agent_security.Base.{Str, bytes, ◌==◌, [], ◌∷◌, Option, none, some, true, ◌≡◌, refl, lookup}
use ai_agent_security.Ssf.{
  event_type_session_revoked, content_type_set, SetClaims, Receiver, new_receiver, Push, accepted,
  duplicate_jti, set_of, deliver, serve_http, Revoked, is_revoked, new_agent_remediation, on,
}
use ai_agent_security.Ssf.Revocation.{Carries, serve_all, delivered_once}
use ai_agent_security.Ssf.Permanence.{IsWired-new_agent_remediation, revoked-serve_all}
use ai_agent_security.Samples.Stubs.{std}

abbrev set_claims : SetClaims
set_claims = record {
  registered = record {
    issuer = bytes "ssf";
    subject = [];
    audience = [];
    expires_at = none;
    not_before = none;
    issued_at = none;
    id = bytes "s1";
  };
  events = (event_type_session_revoked, bytes "agent") ∷ [];
}

abbrev parse_any : Str → Option SetClaims
parse_any body = some set_claims

abbrev receiver : Receiver Revoked
receiver = new_agent_remediation std new_receiver

abbrev push : Push
push = record { method = bytes "POST"; content_type = content_type_set; body = some (bytes "set") }

carries : Carries parse_any push (set_of set_claims)
carries = (refl, refl, (bytes "set", set_claims, refl, refl, refl, refl))

accepted_first : (serve_http parse_any receiver push 5 []).2 ≡ accepted
unfolding serve_http deliver set_of new_agent_remediation on lookup ◌==◌
accepted_first = refl

abbrev after : Receiver Revoked × Revoked
after =
    serve_all parse_any [] (serve_http parse_any receiver push 5 []).0
      (serve_http parse_any receiver push 5 []).1

delivered_once_example :
    serve_http parse_any after.0 push 9 after.1 ≡ (after.0, after.1, duplicate_jti)
delivered_once_example =
    delivered_once parse_any receiver push push 5 9 [] (set_of set_claims) (set_of set_claims) []
      carries accepted_first carries refl

revoked-serve_all_example :
    is_revoked
      (serve_all parse_any ((push, 7) ∷ []) receiver ((bytes "agent", 5) ∷ [])).1
      (bytes "agent")
    ≡ true
unfolding is_revoked lookup ◌==◌
revoked-serve_all_example =
    revoked-serve_all std parse_any ((push, 7) ∷ []) receiver ((bytes "agent", 5) ∷ [])
      (bytes "agent") (IsWired-new_agent_remediation std) refl
