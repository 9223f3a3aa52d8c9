-- ===== src/Llm/Prompts.antt =====
-- llm/prompts/loader.py: a loaded prompt, and its rendering. `str.format` is a parameter. The guardrails,
-- which no part reads, are left out, and a schema or an example is its JSON text.
use news_project.Prelude.{ℕ, Option, List, Text}
use news_project.Prelude.Dict.{Dict}
use news_project.Push.Retry.{Outcome, returned, raised}

pub record PromptFile : Type 0 where
  pub name : Text
  pub version : ℕ
  pub model_target : Text
  pub description : Text
  pub cache_segments : List Text
  pub system : Text
  pub output_schema_inline : Option Text
  pub user_template : Text
  pub few_shot_examples : List Text

pub record RenderedPrompt : Type 0 where
  pub name : Text
  pub version : ℕ
  pub model_target : Text
  pub system : Text
  pub user : Text
  pub output_schema : Option Text
  pub cache_segments : List Text
  pub few_shot_examples : List Text

-- `RenderedPrompt(...)`, if the text was formatted
unfoldable pub rendered : PromptFile → Outcome Text Text → Outcome Text RenderedPrompt
rendered pf (raised e) = raised e
rendered pf (returned user) = returned (record {
  name = pf.name;
  version = pf.version;
  model_target = pf.model_target;
  system = pf.system;
  user = user;
  output_schema = pf.output_schema_inline;
  cache_segments = pf.cache_segments;
  few_shot_examples = pf.few_shot_examples;
})

-- `PromptHandle.render`, over `str.format` with named arguments: the text, or that of an exception
unfoldable pub render :
    (Text → Dict Text Text → Outcome Text Text)
    → PromptFile
    → Dict Text Text
    → Outcome Text RenderedPrompt
unfolding rendered
render format pf vars = rendered pf (format pf.user_template vars)
