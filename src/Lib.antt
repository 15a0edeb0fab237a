-- ===== src/Lib.antt =====
-- AI Agent Security: a model of the Go packages that give AI agents an identity, authorise what they
-- do, broker credentials for them and keep their memories.
--
-- The parts and how they interact. Agents hold tokens of an identity provider (pkg/identity/token.go)
-- that form delegation chains (chain.go), and prove each request (proof.go) with a token that a
-- replay store admits once (store.go). The middleware of internal/authz checks the three on each HTTP
-- request and asks an authorizer; the gateway (internal/gateway) does the same for calls of tools,
-- with a list of revoked agents, client certificates and issuers of a federation. The credential
-- broker (pkg/cb4a) decides requests for credentials at a policy decision point, with humans and
-- passkeys (pkg/webauthn) where the policy asks for them, and mints short-lived tokens at a
-- credential delivery point that also plays the resource server; both write one audit log. The
-- payment gateway (pkg/x402) accepts such tokens as payments. The memory store (pkg/memory) keeps a
-- namespace for each agent. The receiver of security events (pkg/ssfreceiver) revokes agents.
-- Authorization servers turn agent tokens into other credentials: on-behalf-of tokens for a user
-- whose token the agent presents, in full or by selective disclosure (pkg/obo), grants for another
-- domain (pkg/identitychaining), transaction tokens (pkg/txntoken) and access tokens
-- (pkg/spiffeclientauth). A federation (pkg/federation) gives the keys of issuers by trust chains,
-- behind the interface that the gateway asks.
--
-- Which file models which part:
--   Keys, Keys/Base64, Keys/BigEndian   pkg/keys/ec.go: PublicKeyToJWK, JWKToPublicKey, encodeCoord
--   Webauthn                            pkg/webauthn: Register, MakeAssertion, VerifyAssertion
--   Identity/Token                      pkg/identity/token.go: AgentIssuer.Issue, AgentValidator.Validate
--   Identity/Chain                      pkg/identity/chain.go: ParseChain, String, Extend, Hash, Validate
--   Identity/Store                      pkg/identity/store.go: JTIStore, InMemoryJTIStore.Record
--   Identity/Proof                      pkg/identity/proof.go: GenerateProof, ProofValidator.Validate
--   Cb4a/Audit, Cb4a/Envelope           pkg/cb4a/audit.go, envelope.go
--   Cb4a/Policy, Cb4a/Pdp               pkg/cb4a/pdp.go: evaluateTier, Evaluate, Approve,
--                                       ApproveWithPasskey, Deny, Get, ListPending, ParseDecision
--   Cb4a/Cdp, Cb4a/Calls                pkg/cb4a/cdp.go: Mint; GenerateDPoPProof, SimulateAPICall
--   X402                                pkg/x402: Require, Verify, BuildPayload
--   Memory                              pkg/memory/memory.go: Write, Read, Delete, Audit
--   Authz, Authz/Middleware             internal/authz/authz.go, middleware.go: Authorize, AgentAuth
--   Gateway, Gateway/Middleware         internal/gateway/server.go, multivalidator.go:
--                                       agentAuthMiddleware, resolveAndValidate, verifyMTLSBinding,
--                                       extractToolParams, toolNameToPath, validateWithAny
--   Ssf                                 pkg/ssfreceiver: ServeHTTP, On, handleSessionRevoked
--   Tokens                              the claims, parser options and parse shared by the next four
--   Obo, Obo/User, Obo/Sdjwt            pkg/obo/types.go, user.go, sdjwt.go; resolveScope
--   Obo/Delegation                      pkg/obo/issuer.go, validator.go: OBOIssuer.Issue,
--                                       OBOValidator.Validate
--   Txntoken, Identitychaining          pkg/txntoken, pkg/identitychaining: Issue, Validate
--   Spiffeclientauth                    pkg/spiffeclientauth: Authenticate
--   Federation, Federation/Entity       pkg/federation/entity.go
--   Federation/Resolver                 pkg/federation/resolver.go: InMemoryResolver
--   Federation/Concurrent               its steps as calls interleave
--   Federation/Http                     pkg/federation/resolver.go: HTTPResolver
--   Base and its children               strings, maps, results, lists and instants as Go has them
--   Jwt, Platform                       what the program calls of libraries, as parameters
--   Samples and its children            parameters filled in, and concrete inputs
-- The files whose names end in Laws, and PdpRequests, PdpPolicy, CallChecks, EndToEnd, Isolation,
-- Admission, Once, Pieces, ReplayWindow, Revocation, Permanence, Disclosures, Presenting, Built,
-- Flow, Certified, Answers, Interleaved, Addresses, Visits and Alphabet, hold the proofs about the
-- part beside them.
--
-- State is passed explicitly: an operation takes the state of its receiver and returns the next state
-- with its result. A mutex is not modelled, since each operation holds it for the whole of what it
-- does to the state, but for the replay detection of proofs, where the parser and the store read the
-- clock at two instants, which are two arguments, and for the resolvers of the federation. Their
-- Resolve is one step at one instant in Federation/Resolver and Federation/Http;
-- Federation/Concurrent has the steps of the first in any order with those of other calls, still with
-- one instant for a chain, as resolveAndValidate of the gateway has one for all that it validates.
-- Clocks, random identifiers and drawn keys are arguments. An error is a constructor for each place
-- that makes one; its text is not modelled.
--
-- Code that is not in the repository is a parameter. `Jwt` has the JWT library's parsing and signing;
-- `IsSound` says what its documentation promises of a parse that succeeds, `IsComplete` that a signed
-- token is parsed, and `IsTimely` that a token which was parsed once is parsed until it expires;
-- `Platform` has the digest, ECDSA, JSON and the formats of time, and `IsFaithful` says that JSON of a
-- key is read back; `TextsJson` and `ClaimsJson` have the JSON of disclosures and of entity statements.
-- What the web answers to the federation's resolver is a function of the address. Samples/OneToken,
-- Samples/TwoTokens, Samples/Stubs, Samples/Texts and Samples/Entities fill them in. path.Match of the
-- standard library is written out in Cb4a/Glob, base64url in Keys/Base64. Cb4a/Glob tries every place
-- for a star, where Go keeps the first that fits, so that unusual patterns can differ; those of the
-- default rules do not. `IsComplete` asks for more than the libraries do with a text that is not UTF-8
-- or an instant that is not a whole second, which they replace or round.
--
-- Numbers are natural numbers without a bound: instants are nanoseconds since Go's zero time, and
-- texts are lists of bytes. No definition needs fuel but those of Keys/BigEndian, whose fuel is the
-- number that they convert, and the loop of stripTrailingSlash in Federation/Http, whose fuel is one
-- more than the length of its text.
--
-- Not modelled: the command cmd/gateway and the demo cmd/demo-wasm, which wire the packages together;
-- pkg/keys/mtls.go, which calls crypto/x509 and crypto/tls; pkg/webauthn/prf.go, one call of HMAC; the
-- routing of internal/gateway and the HTTP client of pkg/federation.
pub mod Base
pub mod Keys
pub mod Jwt
pub mod Platform
pub mod Webauthn
pub mod Identity
pub mod Cb4a
pub mod X402
pub mod Memory
pub mod Authz
pub mod Federation
pub mod Gateway
pub mod Identitychaining
pub mod Obo
pub mod Spiffeclientauth
pub mod Ssf
pub mod Tokens
pub mod Txntoken
pub mod Samples
