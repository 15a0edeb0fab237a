-- ===== src/Federation/Visits.antt =====
-- HTTPResolver over visits of a web that changes: its cache.
use ai_agent_security.Base.{
  Str, ◌==◌, eq_iff, ◌≡◌, refl, ap, ◌∙◌, ◌≤◌, ◌<◌, ◌⊎◌, inl, inr, List, [], ◌∷◌, Option, none, some,
  ok, Any, Map, lookup, delete, lookup-insert, lookup-delete, Time, Bool-cases, Option-cases,
  Result-cases, arith,
}
use ai_agent_security.Keys.{PublicKey}
use ai_agent_security.Platform.{Platform}
use ai_agent_security.Jwt.{RegisteredClaims, Jwt, IsSound}
use ai_agent_security.Federation.{ClaimsJson}
use ai_agent_security.Federation.Resolver.{ResolvedEntity, live}
use ai_agent_security.Federation.EntityLaws.{HasExpiries}
use ai_agent_security.Federation.CacheLaws.{live_sound}
use ai_agent_security.Federation.Http.{HttpResolver, fetch_chain, stored_http, resolve_http}
use ai_agent_security.Federation.HttpLaws.{IsFetched, fetch_chain-IsFetched}

-- The web at one instant and an entity that is resolved then.
pub record Visit : Type 0 where
  pub web : Str → Option Str
  pub at : Time
  pub id : Str

-- The visits came at instants that do not run backwards, up to `now`.
abbrev pub Until : List Visit → Time → Type 0
Until [] now = Unit
Until (v ∷ vs) now = (v.at ≤ now) × Until vs v.at

Until-le :
    (vs : List Visit) (now : Time) (v : Visit) → Until vs now → Any (λ w. w ≡ v) vs → v.at ≤ now
Until-le [] now v h among = absurd among
Until-le (w ∷ vs) now v (last_, before) (inl same) =
    let e = ap (λ (x : Visit). x.at) same in omega arith
Until-le (w ∷ vs) now v (last_, before) (inr among) =
    let earlier_ = Until-le vs w.at v before among in omega arith

module _ (std : Platform) {M : Type 0} (json : ClaimsJson M) (jwt : Jwt M) (escape : Str → Str)
    (anchors : Map PublicKey) where
  -- The resolver after visits at instants up to `now`, the latest first, with a new resolver before.
  unfoldable pub visited : List Visit → HttpResolver
  visited [] = record { trust_anchors = anchors; cache = [] }
  visited (v ∷ vs) = (resolve_http std json jwt escape v.web v.at v.id (visited vs)).0

  resolve_http-live :
      (fetch : Str → Option Str) (r : HttpResolver) (key : Str) (now : Time) (e : ResolvedEntity)
      → live now (lookup key r.cache) ≡ some e
      → resolve_http std json jwt escape fetch now key r ≡ (r, ok e)
  unfolding resolve_http
  resolve_http-live fetch r key now e there = ground arith

  resolve_http_stale :
      (fetch : Str → Option Str) (r : HttpResolver) (key : Str) (now : Time)
      → live now (lookup key r.cache) ≡ none
      → resolve_http std json jwt escape fetch now key r
        ≡ stored_http std json jwt escape fetch key r
            (fetch_chain std json jwt escape fetch r.trust_anchors now key)
  unfolding resolve_http
  resolve_http_stale fetch r key now gone = ground arith

  resolve_http-anchors :
      (fetch : Str → Option Str) (r : HttpResolver) (key : Str) (now : Time)
      → (resolve_http std json jwt escape fetch now key r).0.trust_anchors ≡ r.trust_anchors
  unfolding stored_http
  resolve_http-anchors fetch r key now = elim (Option-cases (live now (lookup key r.cache))) [
    | inr (e, there) ↦ rw (resolve_http-live fetch r key now e there) refl
    | inl gone ↦
        rw (resolve_http_stale fetch r key now gone)
          (elim (Result-cases (fetch_chain std json jwt escape fetch r.trust_anchors now key)) [
            | inl (e, accepted) ↦ rw accepted refl
            | inr (e, refused) ↦ rw refused refl
          ])
  ]

  -- What is cached after a resolution was cached before, or is what was resolved.
  resolve_http-cached :
      (fetch : Str → Option Str) (r : HttpResolver) (key : Str) (now : Time) (id : Str)
      (e : ResolvedEntity)
      → lookup id (resolve_http std json jwt escape fetch now key r).0.cache ≡ some e
      → (lookup id r.cache ≡ some e)
        ⊎ ((key ≡ id) × (fetch_chain std json jwt escape fetch r.trust_anchors now key ≡ ok e))
  unfolding stored_http
  resolve_http-cached fetch r key now id e = elim (Option-cases (live now (lookup key r.cache))) [
    | inr (x, there) ↦ rw (resolve_http-live fetch r key now x there) λ h. inl h
    | inl gone ↦
        rw (resolve_http_stale fetch r key now gone)
          (elim (Result-cases (fetch_chain std json jwt escape fetch r.trust_anchors now key)) [
            | inr (x, refused) ↦ rw refused λ h. inl (ground (arith, lookup-delete key id r.cache))
            | inl (x, accepted) ↦ rw accepted λ h. elim (Bool-cases (key == id)) [
              | inl same ↦
                  let x_is : x ≡ e = ground (arith, lookup-insert key id x (delete key r.cache)) in
                  inr ((eq_iff key id).0 same, ap ok x_is)
              | inr other ↦ inl (
                  ground (
                    arith,
                    lookup-insert key id x (delete key r.cache),
                    lookup-delete key id r.cache,
                  ))
            ]
          ])
  ]

  visited-anchors : (vs : List Visit) → (visited vs).trust_anchors ≡ anchors
  unfolding visited
  visited-anchors [] = refl
  visited-anchors (v ∷ vs) = resolve_http-anchors v.web (visited vs) v.id v.at ∙ visited-anchors vs

module _ (std : Platform) {M : Type 0} (registered : M → RegisteredClaims) (json : ClaimsJson M)
    (jwt : Jwt M) (sound : IsSound registered jwt)
    (expiries : HasExpiries std registered json jwt sound) (escape : Str → Str)
    (anchors : Map PublicKey) where
  abbrev trail : List Visit → HttpResolver
  trail vs = visited std json jwt escape anchors vs

  abbrev Fetched : (Str → Option Str) → Str → Time → ResolvedEntity → Type 0
  Fetched fetch id now e =
      IsFetched std registered json jwt sound expiries escape anchors fetch id now e

  found_now :
      (v : Visit) (vs : List Visit) (e : ResolvedEntity)
      → fetch_chain std json jwt escape v.web (trail vs).trust_anchors v.at v.id ≡ ok e
      → Fetched v.web v.id v.at e
  found_now v vs e h =
      fetch_chain-IsFetched std registered json jwt sound expiries escape anchors v.web v.id v.at e
        (rw (visited-anchors std json jwt escape anchors vs) at h)

  -- A cached entity is what some visit has fetched.
  visited-IsFetched :
      (vs : List Visit) (id : Str) (e : ResolvedEntity)
      → lookup id (trail vs).cache ≡ some e
      → (v : Visit) × Any (λ w. w ≡ v) vs × Fetched v.web id v.at e
  unfolding visited lookup
  visited-IsFetched [] id e h = cc
  visited-IsFetched (v ∷ vs) id e h =
      elim (resolve_http-cached std json jwt escape anchors v.web (trail vs) v.id v.at id e h) [
        | inl before ↦
            let (w, among, fetched) = visited-IsFetched vs id e before in (w, inr among, fetched)
        | inr (id_is, accepted) ↦ (v, inl refl, rw id_is at (found_now v vs e accepted))
      ]

  -- An entity that the resolver answers at a visit, after whatever visits at instants that do not run
  -- backwards, has not expired, and was certified, at this visit or an earlier one, by the documents
  -- that the web gave then: its configuration from its own address, and a statement about it from the
  -- address of a trust anchor that the configuration names; if the JWT library is sound and the
  -- expiries that it and the JSON library read agree.
  pub resolve_http-IsFetched :
      (v : Visit) (vs : List Visit) (e : ResolvedEntity)
      → Until vs v.at
      → (resolve_http std json jwt escape v.web v.at v.id (trail vs)).1 ≡ ok e
      → (v.at < e.expires_at)
        × ((w : Visit) × Any (λ u. u ≡ w) (v ∷ vs) × (w.at ≤ v.at) × Fetched w.web v.id w.at e)
  unfolding stored_http
  resolve_http-IsFetched v vs e forward =
      elim (Option-cases (live v.at (lookup v.id (trail vs).cache))) [
        | inr (x, there) ↦
            rw (resolve_http-live std json jwt escape anchors v.web (trail vs) v.id v.at x there)
              λ h.
                let (cached, ahead) = live_sound v.at (lookup v.id (trail vs).cache) x there in
                let x_is : x ≡ e = ground arith in
                let (w, among, fetched) = visited-IsFetched vs v.id x cached in
                (
                  rw x_is at ahead,
                  (w, inr among, Until-le vs v.at w forward among, rw x_is at fetched),
                )
        | inl gone ↦
            rw (resolve_http_stale std json jwt escape anchors v.web (trail vs) v.id v.at gone)
              (elim (Result-cases
                (fetch_chain std json jwt escape v.web (trail vs).trust_anchors v.at v.id)) [
                  | inr (x, refused) ↦ rw refused λ h. ground arith
                  | inl (x, accepted) ↦ rw accepted λ h.
                      let x_is : x ≡ e = ground arith in
                      let now_fetched = found_now v vs x accepted in
                      (
                        rw x_is at now_fetched.certified.unexpired,
                        (v, inl refl, omega arith, rw x_is at now_fetched),
                      )
                ])
      ]
