-- ===== src/X402.antt =====
-- pkg/x402: payments authorised by credentials of the broker.
pub mod Laws
use ai_agent_security.Base.{
  ℕ, Str, bytes, ◌==◌, is_empty, not, ◌&&◌, List, [], ◌∷◌, Option, none, some, Result, ok, err,
  ◌>>=◌, ◌>>◌, guard, require, map_err, split_n, Time,
}
use ai_agent_security.Keys.{PublicKey}
use ai_agent_security.Platform.{Platform}
use ai_agent_security.Jwt.{Jwt}
use ai_agent_security.Identity.Errors
use ai_agent_security.Identity.Token.{
  AgentClaims, ValidatedAgent, AgentValidator, default_options, validate,
}
use ai_agent_security.Cb4a.Envelope
use ai_agent_security.Cb4a.Cdp.{TokenClaims, MintedCredential, CdpState, Jwts}
use ai_agent_security.Cb4a.Calls.{generate_dpop_proof, simulate_api_call}

-- X402Version, SchemeCB4ADPOP, NetworkWIMSE
abbrev pub x402_version : ℕ
x402_version = 1

abbrev pub scheme_cb4a_dpop : Str
scheme_cb4a_dpop = bytes "cb4a-dpop"

abbrev pub network_wimse : Str
network_wimse = bytes "ai-agent-security"

pub record PaymentMethod : Type 0 where
  pub scheme : Str
  pub network : Str
  pub asset : Str
  pub amount : Str

pub record PaymentRequired : Type 0 where
  pub version : ℕ
  pub accepts : List PaymentMethod
  pub resource : Str
  pub error : Str

pub record PaymentPayload : Type 0 where
  pub version : ℕ
  pub scheme : Str
  pub network : Str
  pub cb4a_token : Str
  pub dpop_proof : Str
  pub agent_token : Str

pub record PaymentResult : Type 0 where
  pub agent_svid : Str
  pub asset : Str
  pub amount : Str
  pub scope : Str
  pub resource : Str

pub data Error : Type 0 where
  cb4a_token_required dpop_proof_required agent_token_required invalid_cb4a_token : Error
  not_payment_scope wrong_asset wrong_amount : Error
  dpop_failed : Envelope.Error → Error
  invalid_agent_token : Errors.Error → Error
  identity_mismatch : Error

-- PayingAgent; `none` is the nil pointer.
pub record PayingAgent : Type 0 where
  pub minted : MintedCredential
  pub agent_token : Str

-- PaymentGateway, without the delivery point that it points to
pub record PaymentGateway : Type 0 where
  pub cdp_pub : PublicKey
  pub agent_validator : AgentValidator
  pub asset : Str
  pub amount : Str

-- PaymentGateway.Require
unfoldable pub require_payment : PaymentGateway → Str → PaymentRequired
require_payment g resource = record {
  version = x402_version;
  accepts =
      record {
        scheme = scheme_cb4a_dpop;
        network = network_wimse;
        asset = g.asset;
        amount = g.amount;
      }
      ∷ [];
  resource = resource;
  error = bytes "Payment required";
}

-- ':'
abbrev pub colon : ℕ
colon = 58

unfoldable pub check_parts : PaymentGateway → List Str → Result Error (Unit {0})
check_parts g (kind ∷ asset ∷ amount ∷ []) = do
  guard (kind == bytes "payment") not_payment_scope
  guard (asset == g.asset) wrong_asset
  guard (amount == g.amount) wrong_amount
check_parts g _ = err not_payment_scope

-- checkScope
unfoldable pub check_scope : PaymentGateway → Str → Result Error (Unit {0})
check_scope g scope = check_parts g (split_n colon 2 scope)

module _ (std : Platform) (jwts : Jwts) where
  -- PayingAgent.BuildPayload
  unfoldable pub build_payload :
      PayingAgent → Str → Str → Time → Str → Result Envelope.Error PaymentPayload
  build_payload a method uri now jti = do
    proof ← generate_dpop_proof std jwts (some a.minted) method uri now jti
    ok (record {
      version = x402_version;
      scheme = scheme_cb4a_dpop;
      network = network_wimse;
      cb4a_token = a.minted.token;
      dpop_proof = proof;
      agent_token = a.agent_token;
    })

  -- Verify before the delivery point is called: the claims of the access token.
  unfoldable pub check_payment : PaymentGateway → PaymentPayload → Time → Result Error TokenClaims
  check_payment g p now = do
    guard (not (is_empty p.cb4a_token)) cb4a_token_required
    guard (not (is_empty p.dpop_proof)) dpop_proof_required
    guard (not (is_empty p.agent_token)) agent_token_required
    parsed ←
        require (jwts.token.parse default_options now p.cb4a_token (λ h. some g.cdp_pub))
          invalid_cb4a_token
    check_scope g parsed.claims.scope
    ok parsed.claims

  module _ (agent_jwt : Jwt AgentClaims) where
    -- Verify after the delivery point: the payer's own token.
    unfoldable pub check_payer :
        PaymentGateway → PaymentPayload → TokenClaims → Str → Time → Result Error PaymentResult
    check_payer g p claims uri now = do
      va ← map_err invalid_agent_token (validate std agent_jwt g.agent_validator now p.agent_token)
      guard (va.claims.registered.subject == claims.agent_svid) identity_mismatch
      ok (record {
        agent_svid = claims.agent_svid;
        asset = g.asset;
        amount = g.amount;
        scope = claims.scope;
        resource = uri;
      })

    abbrev after_call :
        PaymentGateway
        → PaymentPayload
        → TokenClaims
        → Str
        → Time
        → CdpState × Result Envelope.Error (Unit {0})
        → CdpState × Result Error PaymentResult
    after_call g p claims uri now (st, err e) = (st, err (dpop_failed e))
    after_call g p claims uri now (st, ok u) = (st, check_payer g p claims uri now)

    -- Verify, on the state of the delivery point
    unfoldable pub verify :
        PaymentGateway
        → CdpState
        → PaymentPayload
        → Str
        → Str
        → Time
        → CdpState × Result Error PaymentResult
    verify g st p method uri now = elim (check_payment g p now) [
      | err e ↦ (st, err e)
      | ok claims ↦
          after_call g p claims uri now
            (simulate_api_call std jwts st p.cb4a_token p.dpop_proof method uri now)
    ]
