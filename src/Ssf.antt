-- ===== src/Ssf.antt =====
-- pkg/ssfreceiver: the receiver of security event tokens and the revocation that it drives. What the
-- handlers change is a state `S`; the handlers of a map entry run in the order of the entry, and the
-- entries in the order of the list, as one of the orders that Go's range may take.
pub mod Revocation
pub mod Permanence
use ai_agent_security.Base.{
  ℕ, ◌/◌, ◌-◌, ◌^◌, Str, bytes, ◌==◌, is_empty, not, take, Bool, true, false, ◌||◌, List, [], ◌∷◌,
  ◌++◌, Option, none, some, Map, lookup, insert, Time, ltb, if◌then◌else◌, second, ℤ, pos, negsuc,
}
use ai_agent_security.Platform.{Platform}
use ai_agent_security.Jwt.{RegisteredClaims}

abbrev pub event_type_session_revoked : Str
event_type_session_revoked =
    bytes "https://schemas.openid.net/secevent/caep/event-type/session-revoked"

abbrev pub content_type_set : Str
content_type_set = bytes "application/secevent+jwt"

-- SET
pub record SecurityEvent : Type 0 where
  pub jti : Str
  pub issuer : Str
  pub issued_at : ℤ
  pub events : Map Str

-- setClaims
pub record SetClaims : Type 0 where
  pub registered : RegisteredClaims
  pub events : Map Str

-- Handler, at an instant, on the state that the handlers share
abbrev pub Handler : Type 0 → Type 0
Handler S = Time → SecurityEvent → S → S

-- Receiver; the map `jtiSeen` to empty structs is a map to units.
pub record Receiver (S : Type 0) : Type 0 where
  pub handlers : Map (List (Handler S))
  pub jti_seen : Map (Unit {0})

-- The parts of an HTTP request that are read; `none` is a failure to read the body.
pub record Push : Type 0 where
  pub method : Str
  pub content_type : Str
  pub body : Option Str

-- The status and its text.
pub data Reply : Type 0 where
  accepted method_not_allowed unsupported_media_type bad_body invalid_set missing_jti
        duplicate_jti :
      Reply

-- `t.Unix()`: the whole seconds since 1970.
unfoldable pub unix : Time → ℤ
unix t =
    let secs = t / second in
    if ltb secs 62_135_596_800
    then negsuc (62_135_596_800 - secs - 1)
    else pos (secs - 62_135_596_800)

abbrev unix_or_zero : Option Time → ℤ
unix_or_zero none = pos 0
unix_or_zero (some t) = unix t

-- The SET that ServeHTTP makes of the claims.
unfoldable pub set_of : SetClaims → SecurityEvent
set_of c = record {
  jti = c.registered.id;
  issuer = c.registered.issuer;
  issued_at = unix_or_zero c.registered.issued_at;
  events = c.events;
}

module _ {S : Type 0} where
  -- NewReceiver
  abbrev pub new_receiver : Receiver S
  new_receiver = record { handlers = []; jti_seen = [] }

  abbrev or_nil : Option (List (Handler S)) → List (Handler S)
  or_nil none = []
  or_nil (some hs) = hs

  unfoldable pub handlers_of : Receiver S → Str → List (Handler S)
  handlers_of r event_type = or_nil (lookup event_type r.handlers)

  -- On
  unfoldable pub on : Receiver S → Str → Handler S → Receiver S
  on r event_type h = record r {
    handlers = insert event_type (handlers_of r event_type ++ h ∷ []) r.handlers;
  }

  unfoldable pub run_handlers : List (Handler S) → Time → SecurityEvent → S → S
  run_handlers [] now set s = s
  run_handlers (h ∷ hs) now set s = run_handlers hs now set (h now set s)

  unfoldable pub dispatch_events : Receiver S → Map Str → Time → SecurityEvent → S → S
  dispatch_events r [] now set s = s
  dispatch_events r ((event_type, raw) ∷ es) now set s =
      dispatch_events r es now set (run_handlers (handlers_of r event_type) now set s)

  -- dispatch
  unfoldable pub dispatch : Receiver S → Time → SecurityEvent → S → S
  dispatch r now set s = dispatch_events r set.events now set s

  abbrev deliver_new :
      Receiver S → SecurityEvent → Time → S → Option (Unit {0}) → Receiver S × S × Reply
  deliver_new r set now s (some u) = (r, s, duplicate_jti)
  deliver_new r set now s none =
      (record r { jti_seen = insert set.jti tt r.jti_seen }, dispatch r now set s, accepted)

  -- From the parsed claims on.
  unfoldable pub deliver : Receiver S → SecurityEvent → Time → S → Receiver S × S × Reply
  deliver r set now s =
      if is_empty set.jti
      then (r, s, missing_jti)
      else deliver_new r set now s (lookup set.jti r.jti_seen)

  abbrev parsed_set : Receiver S → Time → S → Option SetClaims → Receiver S × S × Reply
  parsed_set r now s none = (r, s, invalid_set)
  parsed_set r now s (some c) = deliver r (set_of c) now s

  -- The body is read up to 64 KB, and `parse_unverified` is the JWT library's ParseUnverified.
  abbrev read_body :
      (Str → Option SetClaims) → Receiver S → Time → S → Option Str → Receiver S × S × Reply
  read_body parse_unverified r now s none = (r, s, bad_body)
  read_body parse_unverified r now s (some body) =
      if is_empty (take (2 ^ 16) body)
      then (r, s, bad_body)
      else parsed_set r now s (parse_unverified (take (2 ^ 16) body))

  -- ServeHTTP
  unfoldable pub serve_http :
      (Str → Option SetClaims) → Receiver S → Push → Time → S → Receiver S × S × Reply
  serve_http parse_unverified r push now s =
      if not (push.method == bytes "POST")
      then (r, s, method_not_allowed)
      else if not (push.content_type == content_type_set)
      then (r, s, unsupported_media_type)
      else read_body parse_unverified r now s push.body

-- RevokedSet.subjects
abbrev pub Revoked : Type 0
Revoked = Map Time

-- revoke
unfoldable pub revoke : Str → Time → Revoked → Revoked
revoke subject now rs = insert subject now rs

abbrev is_there : Option Time → Bool
is_there none = false
is_there (some t) = true

-- IsRevoked
unfoldable pub is_revoked : Revoked → Str → Bool
is_revoked rs subject = is_there (lookup subject rs)

-- RevokedSince
unfoldable pub revoked_since : Revoked → Str → Option Time
revoked_since rs subject = lookup subject rs

-- The subject that a session-revoked payload names: its field `sub`, or `uri` where that is empty.
abbrev named_subject : Option (Str × Str) → Str
named_subject none = []
named_subject (some (sub, uri)) = if is_empty sub then uri else sub

abbrev payload_subject : Platform → Option Str → Str
payload_subject std none = []
payload_subject std (some raw) = named_subject (std.subject_of_json raw)

unfoldable pub subject_of : Platform → SecurityEvent → Str
subject_of std set = payload_subject std (lookup event_type_session_revoked set.events)

-- handleSessionRevoked
unfoldable pub handle_session_revoked : Platform → Handler Revoked
handle_session_revoked std now set rs =
    if is_empty (subject_of std set) then rs else revoke (subject_of std set) now rs

-- NewAgentRemediation, on the receiver alone: the set of revocations starts empty
unfoldable pub new_agent_remediation : Platform → Receiver Revoked → Receiver Revoked
new_agent_remediation std r = on r event_type_session_revoked (handle_session_revoked std)
