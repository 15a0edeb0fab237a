-- ===== src/Cb4a/Calls.antt =====
-- Calls with minted tokens: the proofs and the resource server of pkg/cb4a/cdp.go.
use ai_agent_security.Base.{
  Str, ◌==◌, is_empty, not, Bool, true, false, ◌||◌, [], Option, none, some, Result, ok, err, ◌>>=◌,
  ◌>>◌, guard, require, map_err, lookup, insert, Time, add_time, minutes, if◌then◌else◌,
}
use ai_agent_security.Keys.{PublicKey, public_key_to_jwk, jwk_to_public_key}
use ai_agent_security.Keys.Base64.{encode}
use ai_agent_security.Platform.{Platform}
use ai_agent_security.Jwt.{Header}
use ai_agent_security.Identity.Token.{default_options, keyfunc_for}
use ai_agent_security.Cb4a.Audit.{
  Event, api_call, replay_rejected, Detail, duplicate_jti, authorized, AuditEntry, append,
}
use ai_agent_security.Cb4a.Envelope.{
  Error, sign_failed, thumbprint, method_uri_required, serialize_key, marshal_jwk, minted_required,
  invalid_token, invalid_proof, htm_mismatch, htu_mismatch, ath_mismatch, no_proof_key,
  key_mismatch, missing_jti, replay, nil_pointer,
}
use ai_agent_security.Cb4a.Cdp.{
  cb4a_token_type, dpop_proof_type, TokenClaims, MintedCredential, DpopProofClaims, Cdp, CdpState,
  Jwts, jwk_thumbprint,
}

module _ (std : Platform) where
  -- `ath`, the digest of an access token
  unfoldable pub token_hash : Str → Str
  token_hash token = encode (std.sha256 token)

  -- The keyfunc for proofs: the key that the header itself carries.
  unfoldable pub dpop_key : Header → Option PublicKey
  dpop_key h = elim h.typ [
    | none ↦ none
    | some typ ↦
        if typ == dpop_proof_type
        then (elim h.jwk [
          | none ↦ none
          | some raw ↦ elim (std.jwk_of_json raw) [
            | none ↦ none
            | some jwk ↦ elim (jwk_to_public_key jwk) [ err e ↦ none | ok key ↦ some key ]
          ]
        ])
        else none
  ]

  module _ (jwts : Jwts) where
    -- GenerateDPoPProof
    unfoldable pub proof_claims : MintedCredential → Str → Str → Time → Str → DpopProofClaims
    proof_claims mc method uri now jti = record {
      registered = record {
        issuer = [];
        subject = [];
        audience = [];
        expires_at = some (jwts.proof.numeric_date (add_time now (minutes 2)));
        not_before = none;
        issued_at = some (jwts.proof.numeric_date now);
        id = jti;
      };
      http_method = method;
      http_uri = uri;
      ath = token_hash mc.token;
    }

    unfoldable pub generate_dpop_proof :
        Option MintedCredential → Str → Str → Time → Str → Result Error Str
    generate_dpop_proof minted method uri now jti = do
      mc ← require minted minted_required
      guard (not (is_empty method || is_empty uri)) method_uri_required
      jwk ← map_err serialize_key (public_key_to_jwk (some mc.ephemeral_pub) [])
      raw ← require (std.json_of_jwk jwk) marshal_jwk
      require
          (jwts.proof.sign (record { typ = some dpop_proof_type; kid = none; jwk = some raw })
            (proof_claims mc method uri now jti) mc.ephemeral_key)
          sign_failed

    -- Steps 1 to 6 of SimulateAPICall: the claims of the token and of the proof.
    unfoldable pub check_call :
        Cdp → Str → Str → Str → Str → Time → Result Error (TokenClaims × DpopProofClaims)
    check_call c token proof method uri now = do
      tok ←
          require
            (jwts.token.parse default_options now token
              (keyfunc_for cb4a_token_type c.sig_key.public))
            invalid_token
      prf ← require (jwts.proof.parse default_options now proof dpop_key) invalid_proof
      guard (prf.claims.http_method == method) htm_mismatch
      guard (prf.claims.http_uri == uri) htu_mismatch
      guard (prf.claims.ath == token_hash token) ath_mismatch
      key ← require (dpop_key prf.header) no_proof_key
      jkt ← map_err thumbprint (jwk_thumbprint std key)
      guard (tok.claims.jkt == jkt) key_mismatch
      ok (tok.claims, prf.claims)

    unfoldable pub call_entry : Event → TokenClaims → Str → Str → Detail → Bool → AuditEntry
    call_entry event tok method uri detail success = record {
      timestamp = 0;
      event = event;
      agent_svid = tok.agent_svid;
      target = uri;
      action = method;
      scope = tok.scope;
      tier = 0;
      request_id = tok.request_id;
      detail = detail;
      success = success;
    }

    unfoldable pub noted : Time → AuditEntry → CdpState → CdpState
    noted now e st = record st { log = (append now e st.log).0 }

    -- `c.dpopJTI[jti] = exp`
    unfoldable pub remember : CdpState → Str → Time → CdpState
    remember st jti exp = record st {
      cdp = record st.cdp { dpop_jti = insert jti exp st.cdp.dpop_jti };
    }

    abbrev first_seen :
        CdpState
        → TokenClaims
        → Str
        → Str
        → Str
        → Time
        → Option Time
        → CdpState × Result Error (Unit {0})
    first_seen st tok jti method uri now none = (st, err nil_pointer)
    first_seen st tok jti method uri now (some exp) = (
      noted now (call_entry api_call tok method uri authorized true) (remember st jti exp),
      ok tt,
    )

    -- Step 7: the replay store, by what it holds for the proof's id.
    unfoldable pub check_seen :
        CdpState
        → TokenClaims
        → DpopProofClaims
        → Str
        → Str
        → Time
        → Option Time
        → CdpState × Result Error (Unit {0})
    check_seen st tok prf method uri now (some exp) = (
      noted now (call_entry replay_rejected tok method uri (duplicate_jti prf.registered.id) false)
          st,
      err replay,
    )
    check_seen st tok prf method uri now none =
        first_seen st tok prf.registered.id method uri now prf.registered.expires_at

    -- SimulateAPICall
    unfoldable pub simulate_api_call :
        CdpState → Str → Str → Str → Str → Time → CdpState × Result Error (Unit {0})
    simulate_api_call st token proof method uri now =
        elim (check_call st.cdp token proof method uri now) [
          | err e ↦ (st, err e)
          | ok (tok, prf) ↦
              if is_empty prf.registered.id
              then (st, err missing_jti)
              else check_seen st tok prf method uri now (lookup prf.registered.id st.cdp.dpop_jti)
        ]
