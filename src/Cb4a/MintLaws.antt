-- ===== src/Cb4a/MintLaws.antt =====
-- pkg/cb4a/cdp.go: what a minted credential rests on, and the trail of minting.
use ai_agent_security.Base.{
  Str, ◌≡◌, ◌⊎◌, inl, inr, true, [], ◌∷◌, ◌++◌, Option, none, some, Result, ok, err, Result-cases,
  Option-cases, lookup, Time, arith, bytes, add_time,
}
use ai_agent_security.Platform.{Platform}
use ai_agent_security.Keys.{PrivateKey}
use ai_agent_security.Cb4a.Audit.{credential_minted, minted_for, append, stamped}
use ai_agent_security.Cb4a.Envelope.{Error}
use ai_agent_security.Cb4a.Pdp.{PdpDecisionClaims, parse_decision_token}
use ai_agent_security.Cb4a.Cdp.{
  cb4a_token_type, MintedCredential, Cdp, CdpState, Jwts, jwk_thumbprint, minted_claims, prepare,
  mint_entry, mint,
}

-- What a minted credential rests on: a decision that was verified under the decision point's key
-- and approves, a vault entry for its scope, and a token signed for the agent, the target, the action,
-- the scope and the request of the decision, with the thumbprint of the key that was drawn for it.
pub record IsMinted (std : Platform) (jwts : Jwts) (c : Cdp) (decision_jwt : Str)
    (drawn : Option PrivateKey) (now : Time) (jti : Str) (cred : MintedCredential)
    (d : PdpDecisionClaims) (jkt : Str) : Type 0 where
  pub decided : parse_decision_token jwts.decision decision_jwt c.pdp_pub now ≡ ok d
  pub is_approved : d.approved ≡ true
  pub base : Str
  pub in_vault : lookup d.scope c.vault ≡ some base
  pub key_drawn : drawn ≡ some cred.ephemeral_key
  pub public_half : cred.ephemeral_pub ≡ cred.ephemeral_key.public
  pub thumb : jwk_thumbprint std cred.ephemeral_pub ≡ ok jkt
  pub token_signed :
      jwts.token.sign
        (record { typ = some (bytes "cb4a-token+jwt"); kid = none; jwk = none })
        (record {
          registered = record {
            issuer = c.issuer_id;
            subject = d.agent_svid;
            audience = [];
            expires_at = some (jwts.token.numeric_date (add_time now c.token_ttl));
            not_before = some (jwts.token.numeric_date now);
            issued_at = some (jwts.token.numeric_date now);
            id = jti;
          };
          agent_svid = d.agent_svid;
          target = d.target;
          action = d.action;
          scope = d.scope;
          request_id = d.request_id;
          jkt = jkt;
        })
        c.sig_key
      ≡ some cred.token
  pub same_scope : cred.scope ≡ d.scope
  pub until : cred.expires_at ≡ add_time now c.token_ttl

module _ (std : Platform) (jwts : Jwts) where
  prepare-IsMinted :
      (c : Cdp) (decision_jwt : Str) (drawn : Option PrivateKey) (now : Time) (jti jkt : Str)
      (cred : MintedCredential) (d : PdpDecisionClaims)
      → prepare std jwts c decision_jwt drawn now jti ≡ ok (d, jkt, cred)
      → IsMinted std jwts c decision_jwt drawn now jti cred d jkt
  unfolding prepare minted_claims
  prepare-IsMinted c decision_jwt drawn now jti jkt cred d h =
      elim (Result-cases (parse_decision_token jwts.decision decision_jwt c.pdp_pub now)) [
        | inr (e, bad) ↦ ground arith
        | inl (d', decided) ↦ elim (Option-cases (lookup d'.scope c.vault)) [
          | inl missing ↦ ground arith
          | inr (base, held) ↦ elim (Option-cases drawn) [
            | inl none_drawn ↦ ground arith
            | inr (kp, drew) ↦ elim (Result-cases (jwk_thumbprint std kp.public)) [
              | inr (e, bad) ↦ ground arith
              | inl (t, thumb) ↦
                  elim (Option-cases (
                    jwts.token.sign (record { typ = some cb4a_token_type; kid = none; jwk = none })
                      (minted_claims std jwts c d' t now jti) c.sig_key)) [
                        | inl bad ↦ ground arith
                        | inr (token, signed) ↦
                            let d_is : d ≡ d' = ground arith in
                            let t_is : jkt ≡ t = ground arith in
                            rw (d_is, t_is)
                              (record {
                                decided = decided;
                                is_approved = ground arith;
                                base = base;
                                in_vault = held;
                                key_drawn = ground arith;
                                public_half = ground arith;
                                thumb = ground arith;
                                token_signed = ground arith;
                                same_scope = ground arith;
                                until = ground arith;
                              })
                      ]
            ]
          ]
        ]
      ]

  -- Mint either fails and changes nothing, or returns a credential that rests on an approved
  -- decision: its token is signed for the agent, the target, the action, the scope and the request of
  -- the decision, with the thumbprint of the key that was drawn for it, until the lifetime has passed.
  -- It then leaves exactly one entry in the audit log, of the kind "credential_minted", at that
  -- instant and about the same five and the tier, and the rest of the state as it was.
  pub mint-outcome :
      (st st' : CdpState) (decision_jwt : Str) (drawn : Option PrivateKey) (now : Time) (jti : Str)
      (r : Result Error MintedCredential)
      → mint std jwts st decision_jwt drawn now jti ≡ (st', r)
      → ((e : Error) × (r ≡ err e) × (st' ≡ st))
        ⊎ ((cred : MintedCredential) × (d : PdpDecisionClaims) × (jkt : Str) × (r ≡ ok cred)
            × IsMinted std jwts st.cdp decision_jwt drawn now jti cred d jkt
            × (st'.cdp ≡ st.cdp)
            × (st'.log
                ≡ st.log
                  ++ record {
                    timestamp = now;
                    event = credential_minted;
                    agent_svid = d.agent_svid;
                    target = d.target;
                    action = d.action;
                    scope = d.scope;
                    tier = d.tier;
                    request_id = d.request_id;
                    detail = minted_for jkt st.cdp.token_ttl;
                    success = true;
                  }
                    ∷ []))
  unfolding mint append stamped mint_entry
  mint-outcome st st' decision_jwt drawn now jti r h =
      elim (Result-cases (prepare std jwts st.cdp decision_jwt drawn now jti)) [
        | inr (e, bad) ↦ inl (e, ground arith, ground arith)
        | inl ((d, jkt, cred), good) ↦ inr (
          cred,
          d,
          jkt,
          ground arith,
          prepare-IsMinted st.cdp decision_jwt drawn now jti jkt cred d good,
          ground arith,
          ground arith,
        )
      ]
