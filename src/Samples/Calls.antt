-- ===== src/Samples/Calls.antt =====
-- A minted credential and calls with it.
use ai_agent_security.Base.{
  ◌+◌, Str, bytes, ◌==◌, ◌++◌, List, [], ◌∷◌, none, some, Result, ok, err, true, false, eq_refl,
  ◌≡◌, ◌≢◌, refl, ◌⊎◌, Time, arith, lookup, Map,
}
use ai_agent_security.Keys.Base64.{encode}
use ai_agent_security.Identity.Token
use ai_agent_security.Identity.Token.{keyfunc_for}
use ai_agent_security.Cb4a.Audit.{
  credential_minted, minted_for, api_call, replay_rejected, duplicate_jti, authorized,
}
use ai_agent_security.Cb4a.Envelope.{Error, replay}
use ai_agent_security.Cb4a.Pdp.{PdpDecisionClaims}
use ai_agent_security.Cb4a.Cdp.{
  cb4a_token_type, dpop_proof_type, TokenClaims, MintedCredential, DpopProofClaims, CdpState, mint,
}
use ai_agent_security.Cb4a.Calls.{token_hash, dpop_key, check_call, check_seen, simulate_api_call}
use ai_agent_security.Cb4a.CallChecks.{IsAuthorized}
use ai_agent_security.Cb4a.MintLaws.{IsMinted, mint-outcome}
use ai_agent_security.Cb4a.CdpLaws.{
  Call, run_calls, simulate_api_call-IsAuthorized, simulate_api_call-no_replay,
  simulate_api_call-err,
}
use ai_agent_security.Samples.OneToken.{
  sample_parse, same_key, member, before, since, is_met, all_met,
}
use ai_agent_security.Samples.Stubs.{
  std, base_point, base_key, raw_jwk, sample_jwk_of_json, jwk_to_public_key-base_jwk,
}
use ai_agent_security.Samples.Agents.{signed_at}
use ai_agent_security.Samples.Credentials.{
  now, thumb, token_claims, token_signed, proof_claims, proof_signed, jwts, token_sound,
  proof_sound, broker, thumbprint-base_point,
}

dpop_key-proof :
    dpop_key std (record { typ = some dpop_proof_type; kid = none; jwk = some raw_jwk })
    ≡ some base_point
unfolding dpop_key sample_jwk_of_json ◌==◌
dpop_key-proof = rw jwk_to_public_key-base_jwk refl

parsed_token :
    jwts.token.parse Token.default_options now
      (bytes "credential")
      (keyfunc_for cb4a_token_type base_point)
    ≡ some (record { header = token_signed.header; claims = token_claims; valid = true })
unfolding sample_parse keyfunc_for same_key member before since is_met all_met ◌==◌
parsed_token = refl

parsed_proof :
    jwts.proof.parse Token.default_options now (bytes "dpop") (dpop_key std)
    ≡ some (record { header = proof_signed.header; claims = proof_claims; valid = true })
unfolding sample_parse same_key member before since is_met all_met ◌==◌
parsed_proof = rw dpop_key-proof refl

abbrev pub with_seen : Map Time → CdpState
with_seen seen = record broker { cdp = record broker.cdp { dpop_jti = seen } }

checked :
    (seen : Map Time)
    → check_call std jwts
        (with_seen seen).cdp
        (bytes "credential")
        (bytes "dpop")
        (bytes "GET")
        (bytes "/report")
        now
      ≡ ok (token_claims, proof_claims)
unfolding check_call token_hash
checked seen = ground (
  arith,
  parsed_token,
  parsed_proof,
  dpop_key-proof,
  thumbprint-base_point,
  eq_refl (bytes "GET"),
  eq_refl (bytes "/report"),
  eq_refl (encode (bytes "credential")),
  eq_refl thumb,
)

abbrev pub after : CdpState
after =
    (simulate_api_call std jwts broker (bytes "credential") (bytes "dpop") (bytes "GET")
      (bytes "/report") now).0

pub called :
    simulate_api_call std jwts broker
      (bytes "credential")
      (bytes "dpop")
      (bytes "GET")
      (bytes "/report")
      now
    ≡ (after, ok tt)
unfolding simulate_api_call check_seen lookup
called = ground (arith, checked [])

simulate_api_call-IsAuthorized_example :
    (tok : TokenClaims) × (prf : DpopProofClaims) × IsAuthorized std jwts token_sound proof_sound
      broker.cdp
      (bytes "credential")
      (bytes "dpop")
      (bytes "GET")
      (bytes "/report")
      now
      tok
      prf
    × (after.log
        ≡ broker.log
          ++ record {
            timestamp = now;
            event = api_call;
            agent_svid = tok.agent_svid;
            target = bytes "/report";
            action = bytes "GET";
            scope = tok.scope;
            tier = 0;
            request_id = tok.request_id;
            detail = authorized;
            success = true;
          }
            ∷ [])
simulate_api_call-IsAuthorized_example =
    simulate_api_call-IsAuthorized std jwts token_sound proof_sound broker after
      (bytes "credential") (bytes "dpop") (bytes "GET") (bytes "/report") now called

abbrev pub between : List Call
between =
    record {
      token = bytes "credential";
      proof = bytes "other";
      method = bytes "GET";
      uri = bytes "/report";
      at = now;
    }
    ∷ []

simulate_api_call-no_replay_example :
    simulate_api_call std jwts
      (run_calls std jwts between after)
      (bytes "credential")
      (bytes "dpop")
      (bytes "PUT")
      (bytes "/report")
      (now + 5)
    ≢ (after, ok tt)
simulate_api_call-no_replay_example =
    simulate_api_call-no_replay std jwts token_sound proof_sound broker after after
      (bytes "credential") (bytes "dpop") (bytes "GET") (bytes "/report") now between
      (bytes "credential") (bytes "PUT") (bytes "/report") (now + 5) called

abbrev pub replayed : CdpState
replayed =
    (simulate_api_call std jwts (with_seen ((bytes "p1", 7) ∷ [])) (bytes "credential")
      (bytes "dpop") (bytes "GET") (bytes "/report") now).0

replayed_call :
    simulate_api_call std jwts
      (with_seen ((bytes "p1", 7) ∷ []))
      (bytes "credential")
      (bytes "dpop")
      (bytes "GET")
      (bytes "/report")
      now
    ≡ (replayed, err replay)
unfolding simulate_api_call check_seen lookup ◌==◌
replayed_call = ground (arith, checked ((bytes "p1", 7) ∷ []))

simulate_api_call-err_example :
    ((replayed ≡ with_seen ((bytes "p1", 7) ∷ [])) × (replay ≢ replay))
    ⊎ ((replay ≡ replay)
        × (tok : TokenClaims) × (prf : DpopProofClaims) × (seen_until : Time) × IsAuthorized std
            jwts token_sound proof_sound
            (with_seen ((bytes "p1", 7) ∷ [])).cdp
            (bytes "credential")
            (bytes "dpop")
            (bytes "GET")
            (bytes "/report")
            now
            tok
            prf
        × (lookup prf.registered.id ((bytes "p1", 7) ∷ []) ≡ some seen_until)
        × (replayed.cdp ≡ (with_seen ((bytes "p1", 7) ∷ [])).cdp)
        × (replayed.log
            ≡ record {
              timestamp = now;
              event = replay_rejected;
              agent_svid = tok.agent_svid;
              target = bytes "/report";
              action = bytes "GET";
              scope = tok.scope;
              tier = 0;
              request_id = tok.request_id;
              detail = duplicate_jti prf.registered.id;
              success = false;
            }
              ∷ []))
simulate_api_call-err_example =
    simulate_api_call-err std jwts token_sound proof_sound (with_seen ((bytes "p1", 7) ∷ []))
      replayed (bytes "credential") (bytes "dpop") (bytes "GET") (bytes "/report") now replay
      replayed_call

abbrev pub minted : CdpState × Result Error MintedCredential
minted = mint std jwts broker (bytes "decision") (some base_key) signed_at (bytes "c1")

mint-outcome_example :
    ((e : Error) × (minted.1 ≡ err e) × (minted.0 ≡ broker))
    ⊎ ((cred : MintedCredential) × (d : PdpDecisionClaims) × (jkt : Str) × (minted.1 ≡ ok cred)
        × IsMinted std jwts broker.cdp
            (bytes "decision")
            (some base_key)
            signed_at
            (bytes "c1")
            cred
            d
            jkt
        × (minted.0.cdp ≡ broker.cdp)
        × (minted.0.log
            ≡ broker.log
              ++ record {
                timestamp = signed_at;
                event = credential_minted;
                agent_svid = d.agent_svid;
                target = d.target;
                action = d.action;
                scope = d.scope;
                tier = d.tier;
                request_id = d.request_id;
                detail = minted_for jkt broker.cdp.token_ttl;
                success = true;
              }
                ∷ []))
mint-outcome_example =
    mint-outcome std jwts broker minted.0 (bytes "decision") (some base_key) signed_at (bytes "c1")
      minted.1 refl
