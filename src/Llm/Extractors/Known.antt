-- ===== src/Llm/Extractors/Known.antt =====
-- What the enriched news of llm/extractors.py says of entities.
use news_project.Prelude.{
  ℕ, ◌≡◌, refl, ◌≤◌, false, Option, none, some, List, [], ◌∷◌, ◌++◌, leb, is_empty, elem, any,
  arith, map, In, map-In, codes, Text, text_eq, text_beq_iff, Bool-cases, Option-cases, inl, inr,
}
use news_project.Prelude.Dict.{Dict, lookup, insert, lookup-In, WellKeyed, insert-WellKeyed}
use news_project.Common.Contracts.{RawArticle, Entity, Relation, EnrichedNews}
use news_project.Common.Coerce.{safe_predicate}
use news_project.Common.Ordered.{Distinct}
use news_project.Push.Retry.{Outcome, returned, raised}
use news_project.Llm.Client.{Payload, EntityPayload, RelationPayload, get_or}
use news_project.Llm.Extractors.{LlmError, World, Extractor, conclude, ask, full_request}
use news_project.Llm.Prompts.{render}
use news_project.Llm.Extractors.Deep.{
  validated, entity_of, add_entity, entities_by_name, prepend, relation_step, relations_of,
  enriched_of, deep_of, extraction_of, extract, article_vars, summary_of, summarize,
}

-- Each relation is between two of the entities, with a confidence of at most 1.
abbrev pub AllKnown : List Entity → List Relation → Type 0
AllKnown es [] = Unit
AllKnown es (r ∷ rs) = In r.subject es × In r.object es × (r.confidence ≤ 1000) × AllKnown es rs

-- No entity has an empty name.
abbrev pub AllNamed : List Entity → Type 0
AllNamed [] = Unit
AllNamed (e ∷ es) = (is_empty e.name ≡ false) × AllNamed es

abbrev pub names : List Entity → List Text
names = map (λ (e : Entity). e.name)

abbrev pub IsConsistent : EnrichedNews → Type 0
IsConsistent news =
    (news.confidence ≤ 1000)
    × Distinct (names news.entities)
    × AllNamed news.entities
    × AllKnown news.entities news.relations

-- Each entity stands under its name, which is not empty.
abbrev Filed : Dict Text Entity → Type 0
Filed [] = Unit
Filed ((k, e) ∷ d) = (e.name ≡ k) × (is_empty k ≡ false) × Filed d

abbrev values : Dict Text Entity → List Entity
values = map (λ (kv : Text × Entity). kv.1)

insert-Filed :
    (k : Text) (e : Entity) (d : Dict Text Entity)
    → e.name ≡ k
    → is_empty k ≡ false
    → Filed d
    → Filed (insert k e d)
unfolding insert
insert-Filed k e [] n h f = (n, h, tt)
insert-Filed k e ((j, w) ∷ d) n h f = ground (arith, text_eq.same_iff j k, insert-Filed k e d n h)

add_entity-Filed :
    (lower : Text → Text) (name : Option Text) (e : EntityPayload) (d : Dict Text Entity)
    → WellKeyed d
    → Filed d
    → WellKeyed (add_entity lower name e d) × Filed (add_entity lower name e d)
unfolding add_entity entity_of
add_entity-Filed lower none e d wk f = (wk, f)
add_entity-Filed lower (some name) e d wk f = elim (Bool-cases (is_empty name)) [
  | inl h ↦ rw h (wk, f)
  | inr h ↦ rw h (insert-WellKeyed name _ d wk, insert-Filed name _ d refl h f)
]

entities_by_name-Filed :
    (lower : Text → Text) (es : List EntityPayload) (d : Dict Text Entity)
    → WellKeyed d
    → Filed d
    → WellKeyed (entities_by_name lower es d) × Filed (entities_by_name lower es d)
unfolding entities_by_name
entities_by_name-Filed lower [] d wk f = (wk, f)
entities_by_name-Filed lower (e ∷ es) d wk f =
    let (wk', f') = add_entity-Filed lower e.name e d wk f in
    entities_by_name-Filed lower es (add_entity lower e.name e d) wk' f'

elem-names :
    (k : Text) (d : Dict Text Entity)
    → Filed d
    → lookup k d ≡ none
    → elem k (names (values d)) ≡ false
unfolding lookup elem any
elem-names k [] f h = refl
elem-names k ((j, e) ∷ d) f h = ground (
  arith,
  elem-names k d,
  text_beq_iff j k,
  text_beq_iff k j,
  text_beq_iff k e.name,
  text_beq_iff e.name k,
)

Filed-Distinct :
    (d : Dict Text Entity)
    → WellKeyed d
    → Filed d
    → Distinct (names (values d)) × AllNamed (values d)
Filed-Distinct [] wk f = (tt, tt)
Filed-Distinct ((k, e) ∷ d) wk f =
    let (distinct, named) = Filed-Distinct d wk.1 f.2 in
    let is_new = elem-names k d f.2 wk.0 in rw f.0 ((is_new, distinct), (f.1, named))

-- A result without an exception is one of known relations.
abbrev Known : List Entity → Outcome LlmError (List Relation) → Type 0
Known es (raised e) = Unit
Known es (returned rs) = AllKnown es rs

prepend-Known :
    (es : List Entity) (r : Relation) (o : Outcome LlmError (List Relation))
    → In r.subject es
    → In r.object es
    → Known es o
    → Known es (prepend (validated r.confidence r) o)
unfolding prepend validated
prepend-Known es r (raised e) s t k = ground arith
prepend-Known es r (returned rs) s t k = ground arith

value-In : (k : Text) (e : Entity) (d : Dict Text Entity) → lookup k d ≡ some e → In e (values d)
value-In k e d h = map-In (λ (kv : Text × Entity). kv.1) (k, e) d (lookup-In k e d h)

relations_of-Known :
    (lower : Text → Text) (d : Dict Text Entity) (rs : List RelationPayload)
    → Known (values d) (relations_of lower d rs)
unfolding relations_of relation_step
relations_of-Known lower d [] = tt
relations_of-Known lower d (r ∷ rs) =
    let rest = relations_of-Known lower d rs in
    elim (Option-cases (lookup (get_or [] r.subject_name) d)) [
      | inl none_found ↦ rw none_found rest
      | inr (sub, found) ↦ rw found (elim (Option-cases (lookup (get_or [] r.object_name) d)) [
        | inl none_found ↦ rw none_found rest
        | inr (obj, there) ↦ rw there (
            prepend-Known (values d)
              (record {
                subject = sub;
                predicate = safe_predicate lower r.predicate;
                object = obj;
                confidence = get_or 500 r.confidence;
              })
              (relations_of lower d rs) (value-In _ sub d found) (value-In _ obj d there) rest)
      ])
    ]

-- A result without an exception is consistent news.
abbrev pub Consistent : Outcome LlmError EnrichedNews → Type 0
Consistent (raised e) = Unit
Consistent (returned news) = IsConsistent news

validated-Consistent :
    (news : EnrichedNews)
    → Distinct (names news.entities)
    → AllNamed news.entities
    → AllKnown news.entities news.relations
    → Consistent (validated news.confidence news)
unfolding validated
validated-Consistent news distinct named known = elim (Bool-cases (leb news.confidence 1000)) [
  | inl h ↦ rw h (ground arith, distinct, named, known)
  | inr h ↦ rw h tt
]

deep_of-Consistent :
    (lower : Text → Text) (now raw_id : ℕ) (model : Text) (p : Payload) (d : Dict Text Entity)
    (o : Outcome LlmError (List Relation))
    → WellKeyed d
    → Filed d
    → Known (values d) o
    → Consistent (deep_of lower now raw_id model p d o)
unfolding deep_of enriched_of
deep_of-Consistent lower now raw_id model p d (raised e) wk f k = tt
deep_of-Consistent lower now raw_id model p d (returned rs) wk f k =
    let (distinct, named) = Filed-Distinct d wk f in validated-Consistent _ distinct named k

extraction_of-Consistent :
    (lower : Text → Text) (now raw_id : ℕ) (model : Text) (p : Payload)
    → Consistent (extraction_of lower now raw_id model p)
unfolding extraction_of
extraction_of-Consistent lower now raw_id model p =
    let (wk, f) = entities_by_name-Filed lower (get_or [] p.entities) [] tt tt in
    let d = entities_by_name lower (get_or [] p.entities) [] in
    deep_of-Consistent lower now raw_id model p d _ wk f
      (relations_of-Known lower d (get_or [] p.relations))

conclude-Consistent :
    {S : Type 0} (f : Payload → Outcome LlmError EnrichedNews)
    (o : Outcome LlmError Payload × World S)
    → ((p : Payload) → Consistent (f p))
    → Consistent (conclude f o).0
unfolding conclude
conclude-Consistent f (raised e, w) h = tt
conclude-Consistent f (returned p, w) h = h p

summary_of-Consistent :
    (lower : Text → Text) (now raw_id : ℕ) (model : Text) (summary : Option Text) (p : Payload)
    → Consistent (summary_of lower now raw_id model summary p)
unfolding summary_of enriched_of
summary_of-Consistent lower now raw_id model none p = tt
summary_of-Consistent lower now raw_id model (some summary) p = validated-Consistent _ tt tt tt

pub summarize-Consistent :
    {S : Type 0} (lower : Text → Text) (isoformat : ℕ → Text) (day : Text) (now : ℕ)
    (ex : Extractor S) (art : RawArticle) (raw_id : ℕ) (w : World S)
    → Consistent (summarize lower isoformat day now ex art raw_id w).0
unfolding summarize
summarize-Consistent lower isoformat day now ex art raw_id w =
    conclude-Consistent _
      (ask day ex (full_request ex.model_override 600)
        (render ex.format ex.prompt (article_vars isoformat art)) w)
      (λ p. summary_of-Consistent lower now raw_id ex.prompt.model_target p.summary p)

pub extract-Consistent :
    {S : Type 0} (lower : Text → Text) (isoformat : ℕ → Text) (day : Text) (now : ℕ)
    (ex : Extractor S) (art : RawArticle) (raw_id : ℕ) (context : Text) (w : World S)
    → Consistent (extract lower isoformat day now ex art raw_id context w).0
unfolding extract
extract-Consistent lower isoformat day now ex art raw_id context w =
    let vars = article_vars isoformat art ++ (codes "recent_context", context) ∷ [] in
    conclude-Consistent _
      (ask day ex (full_request ex.model_override 1200) (render ex.format ex.prompt vars) w)
      (extraction_of-Consistent lower now raw_id ex.prompt.model_target)
