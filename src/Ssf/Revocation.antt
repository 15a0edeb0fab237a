-- ===== src/Ssf/Revocation.antt =====
-- pkg/ssfreceiver/receiver.go: the outcome of a push, and duplicates.
use ai_agent_security.Base.{
  ◌^◌, Str, bytes, ◌==◌, eq_iff, eq_refl, is_empty, take, ◌≡◌, refl, sym, ap, ◌∙◌, ◌≢◌, ◌⊎◌, inl,
  inr, false, List, [], ◌∷◌, Option, none, some, lookup, insert, lookup-insert, lookup-insert_self,
  Option-cases, Bool-cases, Time, arith,
}
use ai_agent_security.Ssf.{
  content_type_set, SecurityEvent, SetClaims, Receiver, Push, Reply, accepted, method_not_allowed,
  unsupported_media_type, bad_body, invalid_set, missing_jti, duplicate_jti, dispatch, set_of,
  deliver, serve_http,
}

-- A push that carries a token: its claims are those that the library reads from its body.
abbrev pub Carries : (Str → Option SetClaims) → Push → SecurityEvent → Type 0
Carries parse_unverified push set =
    (push.method ≡ bytes "POST")
    × (push.content_type ≡ content_type_set)
    × ((body : Str) × (c : SetClaims) × (push.body ≡ some body)
        × (is_empty (take (2 ^ 16) body) ≡ false)
        × (parse_unverified (take (2 ^ 16) body) ≡ some c)
        × (set ≡ set_of c))

module _ {S : Type 0} (parse_unverified : Str → Option SetClaims) where
  -- What a push does: it delivers a token with a new identifier to the handlers, or it changes nothing.
  pub serve_http-outcome :
      (r : Receiver S) (push : Push) (now : Time) (s : S)
      → ((set : SecurityEvent) × Carries parse_unverified push set
          × (is_empty set.jti ≡ false)
          × (lookup set.jti r.jti_seen ≡ none)
          × (serve_http parse_unverified r push now s ≡ (
            record r { jti_seen = insert set.jti tt r.jti_seen },
            dispatch r now set s,
            accepted,
          )))
        ⊎ ((reply : Reply) × (serve_http parse_unverified r push now s ≡ (r, s, reply))
            × (reply ≢ accepted))
  unfolding serve_http deliver
  serve_http-outcome r push now s = elim (Bool-cases (push.method == bytes "POST")) [
    | inr other ↦ inr (method_not_allowed, ground arith, λ e. cc)
    | inl post ↦ elim (Bool-cases (push.content_type == content_type_set)) [
      | inr other ↦ inr (unsupported_media_type, ground arith, λ e. cc)
      | inl typed ↦ elim (Option-cases push.body) [
        | inl unread ↦ inr (bad_body, ground arith, λ e. cc)
        | inr (body, got) ↦ elim (Bool-cases (is_empty (take (2 ^ 16) body))) [
          | inl nothing ↦ inr (bad_body, ground arith, λ e. cc)
          | inr full ↦ elim (Option-cases (parse_unverified (take (2 ^ 16) body))) [
            | inl bad ↦ inr (invalid_set, ground arith, λ e. cc)
            | inr (c, parsed) ↦ elim (Bool-cases (is_empty (set_of c).jti)) [
              | inl anonymous ↦ inr (missing_jti, ground arith, λ e. cc)
              | inr named ↦ elim (Option-cases (lookup (set_of c).jti r.jti_seen)) [
                | inr (u, seen) ↦ inr (duplicate_jti, ground arith, λ e. cc)
                | inl unseen ↦ inl (
                  set_of c,
                  (
                    (eq_iff push.method (bytes "POST")).0 post,
                    (eq_iff push.content_type content_type_set).0 typed,
                    (body, c, got, full, parsed, refl),
                  ),
                  named,
                  unseen,
                  ground arith,
                )
              ]
            ]
          ]
        ]
      ]
    ]
  ]

  -- The states after pushes, each with the instant at which it comes.
  unfoldable pub serve_all : List (Push × Time) → Receiver S → S → Receiver S × S
  serve_all [] r s = (r, s)
  serve_all ((push, now) ∷ ps) r s =
      serve_all ps (serve_http parse_unverified r push now s).0
        (serve_http parse_unverified r push now s).1

  jti_seen-serve_http :
      (r : Receiver S) (push : Push) (now : Time) (s : S) (id : Str)
      → lookup id r.jti_seen ≡ some tt
      → lookup id (serve_http parse_unverified r push now s).0.jti_seen ≡ some tt
  jti_seen-serve_http r push now s id seen = elim (serve_http-outcome r push now s) [
    | inl (set, carries, named, unseen, delivered) ↦
        let here : (serve_http parse_unverified r push now s).0.jti_seen
            ≡ insert set.jti tt r.jti_seen =
          ap (λ x. x.0.jti_seen) delivered in
        rw here (ground (arith, lookup-insert set.jti id tt r.jti_seen, eq_iff set.jti id))
    | inr (reply, same, refused) ↦ rw same seen
  ]

  jti_seen-serve_all :
      (ps : List (Push × Time)) (r : Receiver S) (s : S) (id : Str)
      → lookup id r.jti_seen ≡ some tt
      → lookup id (serve_all ps r s).0.jti_seen ≡ some tt
  unfolding serve_all
  jti_seen-serve_all [] r s id seen = seen
  jti_seen-serve_all ((push, now) ∷ ps) r s id seen =
      jti_seen-serve_all ps _ _ id (jti_seen-serve_http r push now s id seen)

  serve_http-seen :
      (r : Receiver S) (push : Push) (now : Time) (s : S) (set : SecurityEvent)
      → Carries parse_unverified push set
      → is_empty set.jti ≡ false
      → lookup set.jti r.jti_seen ≡ some tt
      → serve_http parse_unverified r push now s ≡ (r, s, duplicate_jti)
  unfolding serve_http deliver
  serve_http-seen r push now s set (post, typed, (body, c, got, full, parsed, is_set)) named seen =
      ground (
        arith,
        eq_refl (bytes "POST"),
        eq_refl content_type_set,
        ap (λ (x : SecurityEvent). lookup x.jti r.jti_seen) is_set,
        ap (λ (x : SecurityEvent). is_empty x.jti) is_set,
      )

  -- A token is delivered once: after a push was accepted, and whatever pushes follow, every push that
  -- carries a token with the same identifier gets the reply "duplicate" and changes nothing.
  pub delivered_once :
      (r : Receiver S) (push again : Push) (now later : Time) (s : S) (set set' : SecurityEvent)
      (between : List (Push × Time))
      → Carries parse_unverified push set
      → (serve_http parse_unverified r push now s).2 ≡ accepted
      → Carries parse_unverified again set'
      → set'.jti ≡ set.jti
      → let after =
          serve_all between
            (serve_http parse_unverified r push now s).0
            (serve_http parse_unverified r push now s).1 in
        serve_http parse_unverified after.0 again later after.1 ≡ (after.0, after.1, duplicate_jti)
  delivered_once r push again now later s set set' between
        (_, _, (body, c, got, full, parsed, is_set)) ok_ carries' same =
      elim (serve_http-outcome r push now s) [
        | inr (reply, unchanged, refused) ↦ absurd (refused (sym (ap (λ x. x.2) unchanged) ∙ ok_))
        | inl
              (
                found,
                (_, _, (body', c', got', full', parsed', is_found)),
                named,
                unseen,
                delivered,
              ) ↦
            let body_is : body' ≡ body = ground arith in
            let c_is : c' ≡ c = ground arith in
            let jti_is : set'.jti ≡ found.jti =
              same
              ∙ ap (λ (x : SecurityEvent). x.jti) (is_set ∙ ap set_of (sym c_is) ∙ sym is_found) in
            serve_http-seen _ again later _ set' carries' (rw jti_is named) (
              rw jti_is (
                jti_seen-serve_all between _ _ found.jti (
                  rw (ap (λ x. x.0.jti_seen) delivered)
                    (lookup-insert_self found.jti tt r.jti_seen))))
      ]
