-- ===== src/Samples/Payments.antt =====
-- Payments with the credential of Samples/Calls.
use ai_agent_security.Base.{split_n, bytes, ◌==◌, ok, eq_refl, ◌≡◌, refl, arith, Free}
use ai_agent_security.X402.{
  PaymentGateway, PaymentPayload, PaymentResult, check_scope, check_parts, check_payment,
  check_payer, colon, verify,
}
use ai_agent_security.X402.Laws.{IsPaid, verify-IsPaid}
use ai_agent_security.Samples.OneToken.{
  sample_parse, same_key, member, before, since, is_met, all_met,
}
use ai_agent_security.Samples.Stubs.{std, base_point}
use ai_agent_security.Samples.Agents.{
  agent_id, agent_jwt, agent_token, agent_validator, validate-agent_token,
}
use ai_agent_security.Samples.Credentials.{
  token_sound, proof_sound, jwts, broker, scope, token_claims, now,
}
use ai_agent_security.Samples.Calls.{after, called}

abbrev gateway : PaymentGateway
gateway = record {
  cdp_pub = base_point;
  agent_validator = agent_validator;
  asset = bytes "AGENT_CREDIT";
  amount = bytes "50";
}

abbrev payload : PaymentPayload
payload = record {
  version = 1;
  scheme = bytes "cb4a-dpop";
  network = bytes "ai-agent-security";
  cb4a_token = bytes "credential";
  dpop_proof = bytes "dpop";
  agent_token = agent_token;
}

asset-Free : Free colon gateway.asset
asset-Free = ground arith

abbrev payment : PaymentResult
payment = record {
  agent_svid = agent_id;
  asset = bytes "AGENT_CREDIT";
  amount = bytes "50";
  scope = scope;
  resource = bytes "/report";
}

payment_checked : check_payment std jwts gateway payload now ≡ ok token_claims
unfolding check_payment sample_parse same_key member before since is_met all_met ◌==◌ check_scope
    check_parts split_n
payment_checked = refl

payer_checked :
    check_payer std jwts agent_jwt gateway payload token_claims (bytes "/report") now ≡ ok payment
unfolding check_payer
payer_checked = ground (arith, validate-agent_token, eq_refl agent_id)

paid :
    verify std jwts agent_jwt gateway broker payload (bytes "GET") (bytes "/report") now
    ≡ (after, ok payment)
unfolding verify
paid = ground (arith, payment_checked, called, payer_checked)

verify-IsPaid_example :
    IsPaid std jwts agent_jwt token_sound proof_sound gateway broker after payload
      (bytes "GET")
      (bytes "/report")
      now
      payment
verify-IsPaid_example =
    verify-IsPaid std jwts agent_jwt token_sound proof_sound gateway broker after payload
      (bytes "GET") (bytes "/report") now payment paid
