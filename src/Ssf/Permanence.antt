-- ===== src/Ssf/Permanence.antt =====
-- pkg/ssfreceiver/remediation.go: revocations over sequences of pushes.
use ai_agent_security.Base.{
  Str, ◌==◌, eq_iff, is_empty, not, ◌≡◌, refl, ap, ◌∙◌, ◌⊎◌, inl, inr, Bool, true, false, ◌&&◌,
  ◌||◌, List, [], ◌∷◌, Option, none, some, Map, lookup, insert, lookup-insert, Option-cases,
  Bool-cases, Time, arith, if◌then◌else◌,
}
use ai_agent_security.Platform.{Platform}
use ai_agent_security.Ssf.{
  event_type_session_revoked, SecurityEvent, SetClaims, Receiver, new_receiver, Push, accepted,
  handlers_of, on, run_handlers, dispatch_events, dispatch, serve_http, Revoked, revoke, is_revoked,
  subject_of, handle_session_revoked, new_agent_remediation,
}
use ai_agent_security.Ssf.Revocation.{Carries, serve_http-outcome, serve_all}

module _ (std : Platform) where
  -- The session-revoked payload of a token names this subject.
  abbrev pub names : SecurityEvent → Str → Bool
  names set x = not (is_empty x) && subject_of std set == x

  -- A receiver whose only handler is the remediation's.
  abbrev pub IsWired : Receiver Revoked → Type 0
  IsWired r = r.handlers ≡ (event_type_session_revoked, handle_session_revoked std ∷ []) ∷ []

  pub IsWired-new_agent_remediation : IsWired (new_agent_remediation std new_receiver)
  unfolding new_agent_remediation on handlers_of insert lookup
  IsWired-new_agent_remediation = refl

  is_revoked-handle :
      (now : Time) (set : SecurityEvent) (rs : Revoked) (x : Str)
      → is_revoked (handle_session_revoked std now set rs) x ≡ (is_revoked rs x || names set x)
  unfolding is_revoked handle_session_revoked revoke
  is_revoked-handle now set rs x =
      ground (arith, lookup-insert (subject_of std set) x now rs, eq_iff (subject_of std set) x)

  handlers_of-IsWired :
      (r : Receiver Revoked) (event_type : Str)
      → IsWired r
      → handlers_of r event_type
        ≡ (if event_type_session_revoked == event_type then handle_session_revoked std ∷ [] else [])
  unfolding handlers_of lookup
  handlers_of-IsWired r event_type wired = rw wired (ground arith)

  has : Option Str → Bool
  has none = false
  has (some raw) = true

  is_revoked-dispatch_events :
      (r : Receiver Revoked) (es : Map Str) (now : Time) (set : SecurityEvent) (rs : Revoked)
      (x : Str)
      → IsWired r
      → is_revoked (dispatch_events r es now set rs) x
        ≡ (is_revoked rs x || has (lookup event_type_session_revoked es) && names set x)
  unfolding dispatch_events run_handlers lookup has
  is_revoked-dispatch_events r [] now set rs x wired = ground arith
  is_revoked-dispatch_events r ((t, raw) ∷ es) now set rs x wired =
      let after = handle_session_revoked std now set rs in
      elim (Bool-cases (t == event_type_session_revoked)) [
        | inl this ↦ ground (
          arith,
          handlers_of-IsWired r t wired,
          is_revoked-handle now set rs x,
          is_revoked-dispatch_events r es now set after x wired,
          eq_iff t event_type_session_revoked,
          eq_iff event_type_session_revoked t,
        )
        | inr other ↦ ground (
          arith,
          handlers_of-IsWired r t wired,
          is_revoked-dispatch_events r es now set rs x wired,
          eq_iff t event_type_session_revoked,
          eq_iff event_type_session_revoked t,
        )
      ]

  -- A token without a session-revoked event names nobody.
  names-has :
      (set : SecurityEvent) (x : Str)
      → (has (lookup event_type_session_revoked set.events) && names set x) ≡ names set x
  unfolding has subject_of
  names-has set x = elim (Option-cases (lookup event_type_session_revoked set.events)) [
    | inl absent ↦ ground (arith, eq_iff [] x)
    | inr (raw, there) ↦ ground arith
  ]

  is_revoked-dispatch :
      (r : Receiver Revoked) (now : Time) (set : SecurityEvent) (rs : Revoked) (x : Str)
      → IsWired r
      → is_revoked (dispatch r now set rs) x ≡ (is_revoked rs x || names set x)
  unfolding dispatch
  is_revoked-dispatch r now set rs x wired =
      is_revoked-dispatch_events r set.events now set rs x wired
      ∙ ap (λ b. is_revoked rs x || b) (names-has set x)

  module _ (parse_unverified : Str → Option SetClaims) where
    IsWired-serve_http :
        (r : Receiver Revoked) (push : Push) (now : Time) (rs : Revoked)
        → IsWired r
        → IsWired (serve_http parse_unverified r push now rs).0
    IsWired-serve_http r push now rs wired =
        elim (serve_http-outcome parse_unverified r push now rs) [
          | inl (set, carries, named, unseen, delivered) ↦ ap (λ x. x.0.handlers) delivered ∙ wired
          | inr (reply, same, refused) ↦ ap (λ x. x.0.handlers) same ∙ wired
        ]

    revoked-serve_http :
        (r : Receiver Revoked) (push : Push) (now : Time) (rs : Revoked) (x : Str)
        → IsWired r
        → is_revoked rs x ≡ true
        → is_revoked (serve_http parse_unverified r push now rs).1 x ≡ true
    revoked-serve_http r push now rs x wired h =
        elim (serve_http-outcome parse_unverified r push now rs) [
          | inl (set, carries, named, unseen, delivered) ↦
              rw (ap (λ y. y.1) delivered)
                (ground (arith, is_revoked-dispatch r now set rs x wired))
          | inr (reply, same, refused) ↦ rw (ap (λ y. y.1) same) h
        ]

    -- A subject that was revoked once stays revoked, whatever is pushed afterwards, with the remediation
    -- alone on the receiver.
    pub revoked-serve_all :
        (ps : List (Push × Time)) (r : Receiver Revoked) (rs : Revoked) (x : Str)
        → IsWired r
        → is_revoked rs x ≡ true
        → is_revoked (serve_all parse_unverified ps r rs).1 x ≡ true
    unfolding serve_all
    revoked-serve_all [] r rs x wired h = h
    revoked-serve_all ((push, now) ∷ ps) r rs x wired h =
        revoked-serve_all ps _ _ x (IsWired-serve_http r push now rs wired)
          (revoked-serve_http r push now rs x wired h)

    -- With the remediation alone on a receiver, a push either is accepted and revokes exactly the
    -- subject that its session-revoked event names, if there is one, or leaves the revocations as they
    -- were.
    pub serve_http-revokes :
        (r : Receiver Revoked) (push : Push) (now : Time) (rs : Revoked)
        → IsWired r
        → ((set : SecurityEvent) × Carries parse_unverified push set
            × ((serve_http parse_unverified r push now rs).2 ≡ accepted)
            × ((x : Str)
                → is_revoked (serve_http parse_unverified r push now rs).1 x
                  ≡ (is_revoked rs x || names set x)))
          ⊎ ((serve_http parse_unverified r push now rs).1 ≡ rs)
    serve_http-revokes r push now rs wired =
        elim (serve_http-outcome parse_unverified r push now rs) [
          | inl (set, carries, named, unseen, delivered) ↦ inl (
            set,
            carries,
            ap (λ y. y.2) delivered,
            λ x. ap (λ y. is_revoked y.1 x) delivered ∙ is_revoked-dispatch r now set rs x wired,
          )
          | inr (reply, same, refused) ↦ inr (ap (λ y. y.1) same)
        ]
