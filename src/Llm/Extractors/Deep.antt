-- ===== src/Llm/Extractors/Deep.antt =====
-- llm/extractors.py: tiers 1 and 2, with the entities and relations of a payload. `lower` is
-- `str.lower` and `isoformat` is `datetime.isoformat` on the ticks that stand for times.
use news_project.Prelude.{
  ℕ, Option, none, some, List, [], ◌∷◌, ◌++◌, leb, if◌then◌else◌, is_empty, map, Text, codes,
  text_eq,
}
use news_project.Prelude.Dict.{Dict, lookup, insert}
use news_project.Common.Contracts.{RawArticle, Entity, Relation, EnrichedNews}
use news_project.Common.Coerce.{
  safe_event_type, safe_sentiment, safe_magnitude, safe_predicate, safe_entity_type, safe_market,
}
use news_project.Llm.Client.{Payload, EntityPayload, RelationPayload, get_or}
use news_project.Llm.Prompts.{render}
use news_project.Push.Retry.{Outcome, returned, raised}
use news_project.Llm.Extractors.{
  LlmError, key_error, validation_error, World, Extractor, ask, conclude, full_request,
}

-- `Field(ge=0, le=1)` of a confidence
unfoldable pub validated : {A : Type 0} → ℕ → A → Outcome LlmError A
validated confidence a = if leb confidence 1000 then returned a else raised validation_error

-- `ents_by_name` by the entities; an entity without a name, or with an empty one, is left out
unfoldable pub entity_of : (Text → Text) → Text → EntityPayload → Entity
unfolding get_or
entity_of lower name e = record {
  type = safe_entity_type lower e.type;
  name = name;
  ticker = e.ticker;
  market = safe_market lower e.market;
  aliases = get_or [] e.aliases;
}

unfoldable pub add_entity :
    (Text → Text) → Option Text → EntityPayload → Dict Text Entity → Dict Text Entity
unfolding entity_of
add_entity lower none e d = d
add_entity lower (some name) e d =
    if is_empty name then d else insert name (entity_of lower name e) d

unfoldable pub entities_by_name :
    (Text → Text) → List EntityPayload → Dict Text Entity → Dict Text Entity
unfolding add_entity
entities_by_name lower [] d = d
entities_by_name lower (e ∷ es) d = entities_by_name lower es (add_entity lower e.name e d)

-- `relations.append(Relation(...))` before the rest of the loop, which the validation may end
unfoldable pub prepend :
    Outcome LlmError Relation → Outcome LlmError (List Relation) → Outcome LlmError (List Relation)
prepend (raised e) rest = raised e
prepend (returned r) (raised e) = raised e
prepend (returned r) (returned rs) = returned (r ∷ rs)

-- the body of the loop, by the two entities
unfoldable pub relation_step :
    (Text → Text)
    → RelationPayload
    → Option Entity
    → Option Entity
    → Outcome LlmError (List Relation)
    → Outcome LlmError (List Relation)
unfolding prepend validated get_or
relation_step lower r none obj rest = rest
relation_step lower r (some sub) none rest = rest
relation_step lower r (some sub) (some obj) rest =
    let confidence = get_or 500 r.confidence in
    prepend
      (validated confidence (record {
        subject = sub;
        predicate = safe_predicate lower r.predicate;
        object = obj;
        confidence = confidence;
      }))
      rest

unfoldable pub relations_of :
    (Text → Text) → Dict Text Entity → List RelationPayload → Outcome LlmError (List Relation)
unfolding relation_step get_or
relations_of lower d [] = returned []
relations_of lower d (r ∷ rs) =
    relation_step lower r (lookup (get_or [] r.subject_name) d) (lookup (get_or [] r.object_name) d)
      (relations_of lower d rs)

-- `EnrichedNews(...)`, the same in both tiers but for the summary, the entities and the relations
unfoldable pub enriched_of :
    (Text → Text)
    → ℕ
    → ℕ
    → Text
    → Payload
    → Text
    → List Entity
    → List Relation
    → Outcome LlmError EnrichedNews
unfolding validated get_or
enriched_of lower now raw_id model p summary entities relations =
    let confidence = get_or 500 p.confidence in
    validated confidence (record {
      raw_id = raw_id;
      summary = summary;
      related_tickers = get_or [] p.related_tickers;
      sectors = get_or [] p.sectors;
      event_type = safe_event_type lower p.event_type;
      sentiment = safe_sentiment lower p.sentiment;
      magnitude = safe_magnitude lower p.magnitude;
      confidence = confidence;
      key_quotes = get_or [] p.key_quotes;
      entities = entities;
      relations = relations;
      model_used = model;
      extracted_at = now;
    })

-- `payload["summary"]`, and the rest of tier 1
unfoldable pub summary_of :
    (Text → Text) → ℕ → ℕ → Text → Option Text → Payload → Outcome LlmError EnrichedNews
unfolding enriched_of
summary_of lower now raw_id model none p = raised key_error
summary_of lower now raw_id model (some summary) p =
    enriched_of lower now raw_id model p summary [] []

-- tier 2 after the loop over the relations
unfoldable pub deep_of :
    (Text → Text)
    → ℕ
    → ℕ
    → Text
    → Payload
    → Dict Text Entity
    → Outcome LlmError (List Relation)
    → Outcome LlmError EnrichedNews
unfolding enriched_of get_or
deep_of lower now raw_id model p d (raised e) = raised e
deep_of lower now raw_id model p d (returned relations) =
    enriched_of lower now raw_id model p (get_or [] p.summary)
      (map (λ (kv : Text × Entity). kv.1) d) relations

-- tier 2 from the entities on
unfoldable pub extraction_of :
    (Text → Text) → ℕ → ℕ → Text → Payload → Outcome LlmError EnrichedNews
unfolding entities_by_name relations_of deep_of get_or
extraction_of lower now raw_id model p =
    let d = entities_by_name lower (get_or [] p.entities) [] in
    deep_of lower now raw_id model p d (relations_of lower d (get_or [] p.relations))

-- the variables of the prompts of tiers 1 and 2
unfoldable pub article_vars : (ℕ → Text) → RawArticle → Dict Text Text
unfolding get_or
article_vars isoformat art =
    (codes "source", art.source)
    ∷ (codes "published_at", isoformat art.published_at)
    ∷ (codes "title", art.title)
    ∷ (codes "body", get_or [] art.body)
    ∷ []

module _ {S : Type 0} (lower : Text → Text) (isoformat : ℕ → Text) (day : Text) (now : ℕ) where
  -- `Tier1Summarizer.summarize`
  unfoldable pub summarize :
      Extractor S → RawArticle → ℕ → World S → Outcome LlmError EnrichedNews × World S
  unfolding ask conclude full_request summary_of article_vars
  summarize ex art raw_id w =
      conclude (λ p. summary_of lower now raw_id ex.prompt.model_target p.summary p)
        (ask day ex (full_request ex.model_override 600)
          (render ex.format ex.prompt (article_vars isoformat art)) w)

  -- `Tier2DeepExtractor.extract`
  unfoldable pub extract :
      Extractor S → RawArticle → ℕ → Text → World S → Outcome LlmError EnrichedNews × World S
  unfolding ask conclude full_request extraction_of article_vars
  extract ex art raw_id recent_context w =
      let vars = article_vars isoformat art ++ (codes "recent_context", recent_context) ∷ [] in
      conclude (extraction_of lower now raw_id ex.prompt.model_target)
        (ask day ex (full_request ex.model_override 1200) (render ex.format ex.prompt vars) w)
