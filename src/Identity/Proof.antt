-- ===== src/Identity/Proof.antt =====
-- pkg/identity/proof.go and hashToken of helpers.go: GenerateProof and ProofValidator.Validate.
use ai_agent_security.Base.{
  Str, bytes, ◌==◌, is_empty, not, Bool, true, false, ◌||◌, List, [], ◌∷◌, Option, none, some,
  Result, ok, err, ◌>>=◌, ◌>>◌, guard, require, Time, ℤ, add_time, is_zero, minutes, if◌then◌else◌,
}
use ai_agent_security.Keys.{PublicKey, PrivateKey}
use ai_agent_security.Keys.Base64.{encode}
use ai_agent_security.Platform.{Platform}
use ai_agent_security.Jwt.{RegisteredClaims, Jwt}
use ai_agent_security.Identity.Errors.{
  Error, target_required, chain_required, workload_key_required, sign_failed, proof_required,
  key_required, parse_proof, invalid_proof_claims, aud_mismatch, chain_hash_mismatch, tth_mismatch,
  missing_jti, nil_pointer,
}
use ai_agent_security.Identity.Token.{default_options, keyfunc_for}
use ai_agent_security.Identity.Chain.{AgentChain, hash}
use ai_agent_security.Identity.Store.{JtiStore}

abbrev pub agent_proof_type : Str
agent_proof_type = bytes "application/agent-proof+jwt"

abbrev pub default_proof_ttl : ℤ
default_proof_ttl = minutes 5

pub record AgentProofClaims : Type 0 where
  pub registered : RegisteredClaims
  pub chain_hash : Str
  pub tth : Str

pub record ProofGenerateOptions : Type 0 where
  pub target_uri : Str
  pub chain : AgentChain
  pub workload_key : Option PrivateKey
  pub ttl : ℤ
  pub txn_token : Str

pub record ProofValidateOptions : Type 0 where
  pub proof_token : Str
  pub chain : AgentChain
  pub request_uri : Str
  pub workload_key : Option PublicKey
  pub check_replay : Bool
  pub txn_token : Str

-- hashToken
unfoldable pub hash_token : Platform → Str → Str
hash_token std token = encode (std.sha256 token)

-- The loop over `claims.Audience`.
unfoldable pub has_audience : Str → List Str → Bool
has_audience uri [] = false
has_audience uri (a ∷ as_) = a == uri || has_audience uri as_

abbrev is_nil_chain : AgentChain → Bool
is_nil_chain [] = true
is_nil_chain (t ∷ ts) = false

module _ (std : Platform) (jwt : Jwt AgentProofClaims) where
  -- The claims that GenerateProof signs.
  unfoldable pub proof_claims : ProofGenerateOptions → Time → Str → AgentProofClaims
  proof_claims opts now jti =
      let ttl : ℤ = if is_zero opts.ttl then default_proof_ttl else opts.ttl in
      record {
        registered = record {
          issuer = [];
          subject = [];
          audience = opts.target_uri ∷ [];
          expires_at = some (jwt.numeric_date (add_time now ttl));
          not_before = some (jwt.numeric_date now);
          issued_at = some (jwt.numeric_date now);
          id = jti;
        };
        chain_hash = hash std opts.chain;
        tth = if is_empty opts.txn_token then [] else hash_token std opts.txn_token;
      }

  -- GenerateProof, at `now` and with the random id `jti`
  unfoldable pub generate_proof : ProofGenerateOptions → Time → Str → Result Error Str
  generate_proof opts now jti = do
    guard (not (is_empty opts.target_uri)) target_required
    guard (not (is_nil_chain opts.chain)) chain_required
    key ← require opts.workload_key workload_key_required
    require
        (jwt.sign (record { typ = some agent_proof_type; kid = none; jwk = none })
          (proof_claims opts now jti) key)
        sign_failed

  -- The part of Validate before the replay store.
  unfoldable pub check_proof : Time → ProofValidateOptions → Result Error AgentProofClaims
  check_proof now opts = do
    guard (not (is_empty opts.proof_token)) proof_required
    key ← require opts.workload_key key_required
    parsed ←
        require (jwt.parse default_options now opts.proof_token (keyfunc_for agent_proof_type key))
          parse_proof
    guard parsed.valid invalid_proof_claims
    guard (has_audience opts.request_uri parsed.claims.registered.audience) aud_mismatch
    guard (parsed.claims.chain_hash == hash std opts.chain) chain_hash_mismatch
    guard (is_empty opts.txn_token || parsed.claims.tth == hash_token std opts.txn_token)
        tth_mismatch
    ok parsed.claims

  module _ {S : Type 0} (store : JtiStore S) where
    abbrev recorded :
        AgentProofClaims → S × Result Error (Unit {0}) → S × Result Error AgentProofClaims
    recorded claims (s, ok u) = (s, ok claims)
    recorded claims (s, err e) = (s, err e)

    -- `v.store.Record(jti, claims.ExpiresAt.Time)`
    abbrev record_claims :
        Time → AgentProofClaims → Option Time → S → S × Result Error AgentProofClaims
    record_claims now claims none s = (s, err nil_pointer)
    record_claims now claims (some exp) s =
        recorded claims (store.record_jti now claims.registered.id exp s)

    -- The replay detection of Validate.
    unfoldable pub check_replay :
        Time → ProofValidateOptions → AgentProofClaims → S → S × Result Error AgentProofClaims
    check_replay now opts claims s =
        if opts.check_replay
        then (if is_empty claims.registered.id
            then (s, err missing_jti)
            else record_claims now claims claims.registered.expires_at s)
        else (s, ok claims)

    -- ProofValidator.Validate. The parser reads the clock at `parsed_at`, the store later, at
    -- `recorded_at`.
    unfoldable pub validate_proof :
        Time → Time → ProofValidateOptions → S → S × Result Error AgentProofClaims
    validate_proof parsed_at recorded_at opts s = elim (check_proof parsed_at opts) [
      | err e ↦ (s, err e)
      | ok claims ↦ check_replay recorded_at opts claims s
    ]
