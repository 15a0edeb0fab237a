-- ===== src/Authz.antt =====
-- internal/authz/authz.go: the interface Authorizer, the rule table and the OpenFGA back end. The
-- children hold the middleware of middleware.go and the theorems.
pub mod Middleware
pub mod RuleLaws
pub mod Admission
pub mod Once
use ai_agent_security.Base.{
  ℕ, zero, suc, Str, bytes, ◌==◌, has_prefix, is_empty, not, Bool, true, false, ◌&&◌, ◌||◌, List,
  [], ◌∷◌, ◌++◌, Option, none, some, Result, ok, err, Map, eqb, if◌then◌else◌,
}

-- Action
abbrev pub Action : Type 0
Action = Str

abbrev pub action_call : Action
action_call = bytes "can_call"

abbrev pub action_read : Action
action_read = bytes "can_read"

abbrev pub action_write : Action
action_write = bytes "can_write"

-- rule
pub record Rule : Type 0 where
  pub subject : Str
  pub object : Str
  pub action : Action

-- The values of the tool parameters are raw JSON: no authorizer reads them.
pub record Request : Type 0 where
  pub subject : Str
  pub object : Str
  pub action : Action
  pub tool_params : Map Str

-- The texts of the field Reason.
pub data Reason : Type 0 where
  by_rule : Rule → Reason
  no_rule : Request → Reason
  fga_allowed fga_denied : Reason

pub record Decision : Type 0 where
  pub allowed : Bool
  pub reason : Reason
  pub pending : Bool
  pub approval_endpoint : Str

pub data Error : Type 0 where
  subject_and_object_required fga_check : Error

-- Authorizer
pub record Authorizer (A : Type 0) : Type 0 where
  pub authorize : A → Request → Result Error Decision

-- Allow
unfoldable pub allow : List Rule → Str → Str → Action → List Rule
allow rules subject object action =
    rules ++ record { subject = subject; object = object; action = action } ∷ []

-- matchSubject
unfoldable pub match_subject : Str → Str → Bool
match_subject rule_subject subject = rule_subject == bytes "*" || rule_subject == subject

-- actionSatisfies
unfoldable pub action_satisfies : Action → Action → Bool
action_satisfies granted requested =
    if granted == requested
    then true
    else requested == action_read && (granted == action_call || granted == action_write)

-- One round of the loop of Authorize.
unfoldable pub permits : Rule → Request → Bool
permits r req =
    match_subject r.subject req.subject
    && r.object == req.object
    && action_satisfies r.action req.action

abbrev decide : Bool → Reason → Decision
decide allowed reason = record {
  allowed = allowed;
  reason = reason;
  pending = false;
  approval_endpoint = [];
}

unfoldable pub first_permitting : List Rule → Request → Decision
first_permitting [] req = decide false (no_rule req)
first_permitting (r ∷ rs) req =
    if permits r req then decide true (by_rule r) else first_permitting rs req

-- InMemoryAuthorizer.Authorize
unfoldable pub authorize_rules : List Rule → Request → Result Error Decision
authorize_rules rules req =
    if is_empty req.subject || is_empty req.object
    then err subject_and_object_required
    else ok (first_permitting rules req)

-- InMemoryAuthorizer, whose state is its table
abbrev pub in_memory_authorizer : Authorizer (List Rule)
in_memory_authorizer = record { authorize = authorize_rules }

-- What the replacer of escapeURI does at the front of a text: the replacement and how many of the
-- bytes that follow it skips.
abbrev replaced : Str → ℕ → Str × ℕ
replaced s c =
    if has_prefix s (bytes "://")
    then (bytes "_", 2)
    else if eqb c 47
    then (bytes "_", 0)
    else if eqb c 46
    then (bytes "-", 0)
    else (c ∷ [], 0)

escape_from : ℕ → Str → Str
escape_from n [] = []
escape_from (suc n) (c ∷ s) = escape_from n s
escape_from zero (c ∷ s) = let (out, skip) = replaced (c ∷ s) c in out ++ escape_from skip s

-- escapeURI
unfoldable pub escape_uri : Str → Str
unfolding escape_from
escape_uri uri = escape_from 0 uri

abbrev fga_decision : Option Bool → Result Error Decision
fga_decision none = err fga_check
fga_decision (some true) = ok (decide true fga_allowed)
fga_decision (some false) = ok (decide false fga_denied)

-- OpenFGAAuthorizer.Authorize, where `check` is the client's Check of user, relation and object
unfoldable pub authorize_fga : (Str → Str → Str → Option Bool) → Request → Result Error Decision
authorize_fga check req =
    if is_empty req.subject || is_empty req.object
    then err subject_and_object_required
    else fga_decision (check (bytes "agent:" ++ escape_uri req.subject) req.action req.object)

abbrev pub fga_authorizer : Authorizer (Str → Str → Str → Option Bool)
fga_authorizer = record { authorize = authorize_fga }
