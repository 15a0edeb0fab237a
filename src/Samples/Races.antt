-- ===== src/Samples/Races.antt =====
-- Calls that interleave at the resolver of Samples/Federations.
use ai_agent_security.Base.{◌+◌, ◌<◌, bytes, ◌≡◌, refl, sym, ap, ◌∙◌, ◌⊎◌, [], ◌∷◌, List, ok, arith}
use ai_agent_security.Federation.Resolver.{resolve, resolve_chain}
use ai_agent_security.Federation.Answers.{resolve-resolve_chain}
use ai_agent_security.Federation.Concurrent.{Step, config, statement, verified, stored, step, run}
use ai_agent_security.Federation.Interleaved.{Gave, resolve-Gave, resolve_raced}
use ai_agent_security.Samples.Stubs.{std}
use ai_agent_security.Samples.Entities.{
  registered, made_at, leaf_id, leaf_token, statement_token, claims_json, entity_jwt, entity_sound,
  entity_timely, entity_expiries,
}
use ai_agent_security.Samples.Federations.{anchors, full, full_reached, entity, resolved}

abbrev documents : List Step
documents = statement leaf_id statement_token ∷ config leaf_id leaf_token ∷ []

abbrev raced : List Step
raced = stored 0 ∷ config leaf_id (bytes "new") ∷ verified leaf_id (made_at + 5) ∷ documents

documents-full : (run std claims_json entity_jwt anchors documents).resolver ≡ full
unfolding run step
documents-full = refl

given :
    resolve_chain std claims_json entity_jwt
      (run std claims_json entity_jwt anchors documents).resolver
      (made_at + 5)
      leaf_id
    ≡ ok entity
given =
    ap (λ r. resolve_chain std claims_json entity_jwt r (made_at + 5) leaf_id) documents-full
    ∙ sym (
        resolve-resolve_chain std claims_json entity_jwt registered entity_sound entity_expiries
          anchors full (made_at + 5) leaf_id entity_timely full_reached)
    ∙ resolved

resolve_raced_example :
    (resolve std claims_json entity_jwt
      (made_at + 9)
      leaf_id
      (run std claims_json entity_jwt anchors raced).resolver).1
    ≡ ok entity
resolve_raced_example =
    resolve_raced std claims_json entity_jwt anchors documents (made_at + 5) (made_at + 9) leaf_id
      (bytes "new") entity given (omega arith)

still :
    (resolve std claims_json entity_jwt
      (made_at + 9)
      leaf_id
      (run std claims_json entity_jwt anchors raced).resolver).1
    ≡ ok entity
still =
    resolve_raced std claims_json entity_jwt anchors documents (made_at + 5) (made_at + 9) leaf_id
      (bytes "new") entity given (omega arith)

resolve-Gave_example :
    (resolve_chain std claims_json entity_jwt
        (run std claims_json entity_jwt anchors raced).resolver
        (made_at + 9)
        leaf_id
      ≡ ok entity)
    ⊎ ((made_at + 9 < entity.expires_at)
        × Gave std claims_json entity_jwt anchors raced leaf_id entity)
resolve-Gave_example =
    resolve-Gave std claims_json entity_jwt anchors raced (made_at + 9) leaf_id entity still
