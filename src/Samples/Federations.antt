-- ===== src/Samples/Federations.antt =====
-- The resolvers of a federation at the entity of Samples/Entities.
use ai_agent_security.Base.{
  ◌+◌, ◌*◌, ◌<◌, ◌≤◌, Str, bytes, ◌==◌, eq_refl, ◌≡◌, refl, [], ◌∷◌, Option, none, some, ok, Map,
  lookup, insert, delete, Any, minutes, add_time, split_n, second, if◌then◌else◌, arith,
}
use ai_agent_security.Keys.{PublicKey}
use ai_agent_security.Keys.Base64.{encode, decode, char_of}
use ai_agent_security.Identity.Token.{keyfunc_for}
use ai_agent_security.Tokens.{parse_typed}
use ai_agent_security.Ssf.{unix}
use ai_agent_security.Gateway.{entity_key}
use ai_agent_security.Federation.{unix_time}
use ai_agent_security.Federation.Entity.{
  parse_entity_configuration, peek_payload, verify_entity_statement, verify_entity_configuration,
  verify_subordinate_statement,
}
use ai_agent_security.Federation.Resolver.{
  ResolvedEntity, InMemoryResolver, new_in_memory_resolver, register_entity_config,
  register_subordinate_statement, resolve, resolve_chain, live, stored, check_chain, first_verified,
  statement_under,
}
use ai_agent_security.Federation.ChainLaws.{IsCertified}
use ai_agent_security.Federation.CacheLaws.{Reaches}
use ai_agent_security.Federation.Answers.{resolve-resolve_chain, resolve-IsCertified}
use ai_agent_security.Federation.Http.{
  last, without_last, ends_in_slash, strip_loop, strip_trailing_slash, configuration_url,
  statement_url, entity_of, round_under, first_entity, fetch_chain, stored_http, resolve_http,
}
use ai_agent_security.Federation.HttpLaws.{IsFetched}
use ai_agent_security.Federation.Visits.{Visit, visited, resolve_http-IsFetched}
use ai_agent_security.Federation.Flow.{resolve-built}
use ai_agent_security.Samples.OneToken
use ai_agent_security.Samples.OneToken.{sample_parse, same_key, before, since, is_met, all_met}
use ai_agent_security.Samples.TwoTokens.{parse_either}
use ai_agent_security.Samples.Stubs.{
  std, base_point, base_key, base_jwk, base_point-is_on_curve, jwk_to_public_key-base_jwk,
}
use ai_agent_security.Samples.Entities.{
  leaf, statement, registered, made_at, leaf_id, anchor_id, leaf_token, statement_token,
  claims_json, known_payload, entity_jwt, entity_sound, entity_timely, entity_complete,
  entity_expiries, leaf_jwk, built_leaf, built_ss, configured, stated, leaf_reads, statement_reads,
}

abbrev pub anchors : Map PublicKey
anchors = (anchor_id, base_point) ∷ []

abbrev empty : InMemoryResolver
empty = new_in_memory_resolver anchors

abbrev pub full : InMemoryResolver
full =
    register_subordinate_statement leaf_id statement_token
      (register_entity_config leaf_id leaf_token empty)

trusted : lookup anchor_id empty.trust_anchors ≡ some base_point
unfolding new_in_memory_resolver lookup ◌==◌
trusted = refl

leaf_live : made_at + 5 < unix_time (unix (add_time made_at (minutes 10)))
unfolding unix_time unix
leaf_live = omega arith

statement_live : made_at + 5 < unix_time (unix (add_time made_at (minutes 5)))
unfolding unix_time unix
statement_live = omega arith

resolve-built_example :
    (e : ResolvedEntity) × ((resolve std claims_json entity_jwt (made_at + 5) leaf_id full).1
      ≡ ok e)
    × (entity_key e.jwks ≡ some base_point)
resolve-built_example =
    resolve-built std registered claims_json entity_jwt empty leaf_id anchor_id [] [] []
      (bytes "Leaf") base_key base_key [] (minutes 10) (minutes 5) made_at made_at (made_at + 5)
      base_jwk base_jwk leaf_token statement_token entity_complete base_point-is_on_curve
      (λ e. cc e) leaf_jwk leaf_jwk configured stated (rw built_leaf leaf_reads)
      (rw built_ss statement_reads) trusted leaf_live statement_live

pub full_reached : Reaches std claims_json entity_jwt anchors full (made_at + 5)
full_reached =
    Reaches.wait full made_at (made_at + 5)
      (Reaches.statement (register_entity_config leaf_id leaf_token empty) leaf_id statement_token
        made_at (Reaches.config empty leaf_id leaf_token made_at (Reaches.start made_at)))
      (omega arith)

abbrev pub entity : ResolvedEntity
entity = record { jwks = base_jwk ∷ []; expires_at = (62_135_596_800 + 400) * second }

pub resolved : (resolve std claims_json entity_jwt (made_at + 5) leaf_id full).1 ≡ ok entity
unfolding resolve resolve_chain stored live register_subordinate_statement register_entity_config
    new_in_memory_resolver lookup insert delete check_chain first_verified statement_under
    parse_entity_configuration peek_payload split_n decode encode char_of known_payload claims_json
    verify_entity_configuration verify_subordinate_statement verify_entity_statement parse_typed
    parse_either sample_parse OneToken.under keyfunc_for same_key OneToken.member before since
    is_met all_met unix_time ◌==◌
resolved = rw jwk_to_public_key-base_jwk refl

resolve-resolve_chain_example :
    (resolve std claims_json entity_jwt
      (made_at + 5)
      leaf_id
      (resolve std claims_json entity_jwt (made_at + 5) leaf_id full).0).1
    ≡ resolve_chain std claims_json entity_jwt
        (resolve std claims_json entity_jwt (made_at + 5) leaf_id full).0
        (made_at + 5)
        leaf_id
resolve-resolve_chain_example =
    resolve-resolve_chain std claims_json entity_jwt registered entity_sound entity_expiries anchors
      (resolve std claims_json entity_jwt (made_at + 5) leaf_id full).0 (made_at + 5) leaf_id
      entity_timely (Reaches.resolved full leaf_id (made_at + 5) full_reached)

resolve-IsCertified_example :
    (ec_jwt : Str) × (ss_jwt : Str) × (lookup leaf_id full.entity_configs ≡ some ec_jwt)
    × (lookup leaf_id full.sub_statements ≡ some ss_jwt)
    × IsCertified std registered claims_json entity_jwt entity_sound anchors leaf_id ec_jwt ss_jwt
        (made_at + 5)
        entity
resolve-IsCertified_example =
    resolve-IsCertified std claims_json entity_jwt registered entity_sound entity_expiries anchors
      full (made_at + 5) leaf_id entity entity_timely full_reached resolved

-- A web that gives the two documents.
web : Str → Option Str
web url =
    if url == configuration_url leaf_id
    then some leaf_token
    else if url == statement_url (λ s. s) anchor_id leaf_id
    then some statement_token
    else none

abbrev visit : Visit
visit = record { web = web; at = made_at + 5; id = leaf_id }

web_configuration : web (configuration_url leaf_id) ≡ some leaf_token
unfolding configuration_url strip_trailing_slash strip_loop ends_in_slash last without_last web ◌==◌
web_configuration = refl

web_statement : web (statement_url (λ s. s) anchor_id leaf_id) ≡ some statement_token
unfolding configuration_url statement_url strip_trailing_slash strip_loop ends_in_slash last
    without_last web ◌==◌
web_statement = refl

verified_leaf :
    verify_entity_configuration std claims_json entity_jwt leaf_token base_point (made_at + 5)
    ≡ ok leaf
unfolding claims_json verify_entity_configuration verify_entity_statement parse_typed parse_either
    sample_parse OneToken.under keyfunc_for same_key OneToken.member before since is_met all_met
    encode char_of unix_time ◌==◌
verified_leaf = refl

opened :
    entity_of std claims_json entity_jwt (λ s. s) web leaf_token (made_at + 5) statement
    ≡ some entity
unfolding entity_of unix_time
opened = ground (arith, jwk_to_public_key-base_jwk, verified_leaf)

verified :
    verify_subordinate_statement std claims_json entity_jwt statement_token base_point (made_at + 5)
    ≡ ok statement
unfolding claims_json verify_subordinate_statement verify_entity_statement parse_typed parse_either
    sample_parse OneToken.under keyfunc_for same_key OneToken.member before since is_met all_met
    unix_time ◌==◌
verified = refl

parsed : parse_entity_configuration std claims_json entity_jwt leaf_token ≡ ok leaf
unfolding parse_entity_configuration peek_payload split_n decode encode char_of known_payload
    claims_json ◌==◌
parsed = refl

fetched :
    (resolve_http std claims_json entity_jwt
      (λ s. s)
      web
      (made_at + 5)
      leaf_id
      (visited std claims_json entity_jwt (λ s. s) anchors [])).1
    ≡ ok entity
unfolding resolve_http visited live stored_http fetch_chain first_entity round_under lookup
fetched = ground (
  arith,
  web_configuration,
  parsed,
  web_statement,
  verified,
  opened,
  eq_refl leaf_id,
  eq_refl anchor_id,
)

resolve_http-IsFetched_example :
    (made_at + 5 < entity.expires_at)
    × ((w : Visit) × Any (λ u. u ≡ w) (visit ∷ [])
        × (w.at ≤ made_at + 5)
        × IsFetched std registered claims_json entity_jwt entity_sound entity_expiries
            (λ s. s)
            anchors
            w.web
            leaf_id
            w.at
            entity)
resolve_http-IsFetched_example =
    resolve_http-IsFetched std registered claims_json entity_jwt entity_sound entity_expiries
      (λ s. s) anchors visit [] entity tt fetched
