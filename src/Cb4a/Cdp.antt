-- ===== src/Cb4a/Cdp.antt =====
-- The credential delivery point of pkg/cb4a/cdp.go: its state and minting. The audit log that it shares with the decision
-- point is a component of the state beside it. Each operation reads the clock once, at `now`.
use ai_agent_security.Base.{
  Str, bytes, true, [], ◌∷◌, ◌++◌, Option, none, some, Result, ok, err, ◌>>=◌, ◌>>◌, guard, require,
  map_err, Map, lookup, Time, ℤ, add_time, is_nonpos, minutes, if◌then◌else◌,
}
use ai_agent_security.Keys
use ai_agent_security.Keys.{PublicKey, PrivateKey, Jwk, public_key_to_jwk, jwk_to_public_key}
use ai_agent_security.Keys.Base64.{encode}
use ai_agent_security.Platform.{Platform}
use ai_agent_security.Jwt.{RegisteredClaims, Jwt}
use ai_agent_security.Cb4a.Audit.{
  credential_minted, minted_for, AuditEntry, AuditLog, AppendError, append,
}
use ai_agent_security.Cb4a.Envelope.{
  Error, sign_failed, invalid_pdp_decision, not_approved, no_credential, generate_key, thumbprint,
  audit_failed, lifetime,
}
use ai_agent_security.Cb4a.Pdp.{PdpDecisionClaims, parse_decision_token}

abbrev pub cb4a_token_type : Str
cb4a_token_type = bytes "cb4a-token+jwt"

abbrev pub dpop_proof_type : Str
dpop_proof_type = bytes "dpop+jwt"

-- CB4ATokenClaims; `jkt` is `cnf.jkt`.
pub record TokenClaims : Type 0 where
  pub registered : RegisteredClaims
  pub agent_svid : Str
  pub target : Str
  pub action : Str
  pub scope : Str
  pub request_id : Str
  pub jkt : Str

pub record MintedCredential : Type 0 where
  pub token : Str
  pub ephemeral_key : PrivateKey
  pub ephemeral_pub : PublicKey
  pub scope : Str
  pub expires_at : Time

pub record DpopProofClaims : Type 0 where
  pub registered : RegisteredClaims
  pub http_method : Str
  pub http_uri : Str
  pub ath : Str

-- CDP, without its audit log; `vault` is InMemoryVault.creds, by scope.
pub record Cdp : Type 0 where
  pub vault : Map Str
  pub pdp_pub : Option PublicKey
  pub sig_key : PrivateKey
  pub issuer_id : Str
  pub token_ttl : ℤ
  pub dpop_jti : Map Time

pub record CdpState : Type 0 where
  pub cdp : Cdp
  pub log : AuditLog

-- The JWT library at the three kinds of tokens that the broker handles.
pub record Jwts : Type 0 where
  pub decision : Jwt PdpDecisionClaims
  pub token : Jwt TokenClaims
  pub proof : Jwt DpopProofClaims

-- NewInMemoryVault
unfoldable pub demo_vault : Map Str
demo_vault =
    (bytes "billing:invoices:read", bytes "sk-billing-read-xQf2mP9")
    ∷ (bytes "billing:invoices:write", bytes "sk-billing-write-rT7nZ3k")
    ∷ (bytes "analytics:events:read", bytes "sk-analytics-Kj4vLm8")
    ∷ (bytes "github:repos:read", bytes "ghp_demo_N2bXpQ5")
    ∷ (bytes "stripe:charges:write", bytes "sk_live_demo_Wc6yRs1")
    ∷ (bytes "payment:AGENT_CREDIT:50", bytes "pay-auth-50-demo")
    ∷ (bytes "payment:AGENT_CREDIT:100", bytes "pay-auth-100-demo")
    ∷ (bytes "payment:AGENT_CREDIT:500", bytes "pay-auth-500-demo")
    ∷ []

-- NewCDP
unfoldable pub new_cdp : Map Str → Option PublicKey → PrivateKey → Str → ℤ → AuditLog → CdpState
new_cdp vault pdp_pub sig_key issuer_id token_ttl log = record {
  cdp = record {
    vault = vault;
    pdp_pub = pdp_pub;
    sig_key = sig_key;
    issuer_id = issuer_id;
    token_ttl = if is_nonpos token_ttl then minutes 15 else token_ttl;
    dpop_jti = [];
  };
  log = log;
}

-- `%q` of a text that needs no escapes, as all four below.
quoted : Str → Str
quoted s = 34 ∷ s ++ 34 ∷ []

-- The canonical JSON of jwkThumbprint.
unfoldable pub canonical_jwk : Jwk → Str
unfolding quoted
canonical_jwk jwk =
    bytes "{\"crv\":"
    ++ quoted jwk.crv
    ++ bytes ",\"kty\":"
    ++ quoted jwk.kty
    ++ bytes ",\"x\":"
    ++ quoted jwk.x
    ++ bytes ",\"y\":"
    ++ quoted jwk.y
    ++ bytes "}"

module _ (std : Platform) where
  -- jwkThumbprint
  unfoldable pub jwk_thumbprint : PublicKey → Result Keys.Error Str
  jwk_thumbprint key = do
    jwk ← public_key_to_jwk (some key) []
    ok (encode (std.sha256 (canonical_jwk jwk)))

  module _ (jwts : Jwts) where
    -- The claims that Mint signs.
    unfoldable pub minted_claims : Cdp → PdpDecisionClaims → Str → Time → Str → TokenClaims
    minted_claims c d jkt now jti = record {
      registered = lifetime jwts.token c.issuer_id d.agent_svid now c.token_ttl jti;
      agent_svid = d.agent_svid;
      target = d.target;
      action = d.action;
      scope = d.scope;
      request_id = d.request_id;
      jkt = jkt;
    }

    -- Mint up to the signature: the decision, the thumbprint and the credential.
    unfoldable pub prepare :
        Cdp
        → Str
        → Option PrivateKey
        → Time
        → Str
        → Result Error (PdpDecisionClaims × Str × MintedCredential)
    prepare c decision_jwt drawn now jti = do
      d ←
          map_err invalid_pdp_decision
            (parse_decision_token jwts.decision decision_jwt c.pdp_pub now)
      guard d.approved not_approved
      base ← require (lookup d.scope c.vault) no_credential
      kp ← require drawn generate_key
      jkt ← map_err thumbprint (jwk_thumbprint kp.public)
      token ←
          require
            (jwts.token.sign (record { typ = some cb4a_token_type; kid = none; jwk = none })
              (minted_claims c d jkt now jti) c.sig_key)
            sign_failed
      ok (
        d,
        jkt,
        record {
          token = token;
          ephemeral_key = kp;
          ephemeral_pub = kp.public;
          scope = d.scope;
          expires_at = add_time now c.token_ttl;
        },
      )

    unfoldable pub mint_entry : Cdp → PdpDecisionClaims → Str → AuditEntry
    mint_entry c d jkt = record {
      timestamp = 0;
      event = credential_minted;
      agent_svid = d.agent_svid;
      target = d.target;
      action = d.action;
      scope = d.scope;
      tier = d.tier;
      request_id = d.request_id;
      detail = minted_for jkt c.token_ttl;
      success = true;
    }

    -- Fail-closed: no credential without its audit entry.
    abbrev release :
        CdpState
        → MintedCredential
        → AuditLog × Result AppendError (Unit {0})
        → CdpState × Result Error MintedCredential
    release st cred (log, ok u) = (record st { log = log }, ok cred)
    release st cred (log, err e) = (record st { log = log }, err audit_failed)

    -- Mint, with the key pair and the token id drawn at random
    unfoldable pub mint :
        CdpState → Str → Option PrivateKey → Time → Str → CdpState × Result Error MintedCredential
    mint st decision_jwt drawn now jti = elim (prepare st.cdp decision_jwt drawn now jti) [
      | err e ↦ (st, err e)
      | ok (d, jkt, cred) ↦ release st cred (append now (mint_entry st.cdp d jkt) st.log)
    ]
