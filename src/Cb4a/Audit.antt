-- ===== src/Cb4a/Audit.antt =====
-- pkg/cb4a/audit.go: the append-only audit trail. The texts of the field Detail are constructors.
use ai_agent_security.Base.{
  ℕ, Str, Bool, List, [], ◌∷◌, ◌++◌, Result, ok, Time, ℤ, eqb, length, if◌then◌else◌,
}

-- EventType
pub data Event : Type 0 where
  envelope_received policy_evaluated approved denied credential_minted api_call replay_rejected :
      Event

pub data Detail : Type 0 where
  tier_is : ℕ → Detail
  auto_approved : Detail
  approved_by denied_by : Str → Detail
  minted_for : Str → ℤ → Detail
  duplicate_jti : Str → Detail
  authorized : Detail

pub record AuditEntry : Type 0 where
  pub timestamp : Time
  pub event : Event
  pub agent_svid : Str
  pub target : Str
  pub action : Str
  pub scope : Str
  pub tier : ℕ
  pub request_id : Str
  pub detail : Detail
  pub success : Bool

-- AuditLog.entries
abbrev pub AuditLog : Type 0
AuditLog = List AuditEntry

pub data AppendError : Type 0 where
  append_failed : AppendError

-- The entry with the time of the call, where it has none.
unfoldable pub stamped : Time → AuditEntry → AuditEntry
stamped now e = if eqb e.timestamp 0 then record e { timestamp = now } else e

-- AuditLog.Append, which never fails in memory.
unfoldable pub append : Time → AuditEntry → AuditLog → AuditLog × Result AppendError (Unit {0})
append now e log = (log ++ stamped now e ∷ [], ok tt)

-- AuditLog.Entries, a copy
unfoldable pub entries : AuditLog → List AuditEntry
entries log = log

-- AuditLog.Len
unfoldable pub len : AuditLog → ℕ
len log = length log
