-- ===== src/Configuration/Normal.antt =====
-- Which `[llm]` sections `normalize_configuration` of src/configuration.rs accepts.
use pgmoneta_mcp.Prelude.{
  ℕ, ◌≡◌, ◌≢◌, ◌↔◌, refl, sym, ap, ◌∙◌, Bool, true, false, [], ◌∷◌, Option, some, if◌then◌else◌,
}
use pgmoneta_mcp.Bytes.{Bytes, codes, eq_bytes, eq_bytes→eq}
use pgmoneta_mcp.Bytes.Text.{trim}
use pgmoneta_mcp.Result.{Result, ok, err, ◌>>=◌, >>=-eq-ok, unsupported_provider}
use pgmoneta_mcp.Configuration.{
  LlmConfiguration, Configuration, default_llm_model_for_provider, validate_llm_provider, model_for,
  checked, normalize_llm, normalize_section, normalize_configuration,
}

-- A section that `Agent` and the client for the provider can use.
pub record IsUsable (before after : LlmConfiguration) : Type 0 where
  pub provider : after.provider ≡ codes "ollama"
  pub endpoint : after.endpoint ≡ trim before.endpoint
  pub endpoint_given : after.endpoint ≢ []
  pub model_given : after.model ≢ []
  pub same_rounds : after.max_tool_rounds ≡ before.max_tool_rounds

default_outcome :
    (known : Bool) (provider model : Bytes)
    → (if known then ok (codes "llama3.1") else err (unsupported_provider provider)) ≡ ok model
    → (known ≡ true) × (model ≢ [])
default_outcome true provider model h = (refl, λ e. cc)
default_outcome false provider model h = cc

default_model_lem :
    (provider model : Bytes)
    → default_llm_model_for_provider provider ≡ ok model
    → (provider ≡ codes "ollama") × (model ≢ [])
unfolding default_llm_model_for_provider
default_model_lem provider model h =
    let (known, given) = default_outcome (eq_bytes provider (codes "ollama")) provider model h in
    (eq_bytes→eq provider (codes "ollama") known, given)

model_for_lem :
    (provider model used : Bytes)
    → model_for provider model ≡ ok used
    → (provider ≡ codes "ollama") × (used ≢ [])
unfolding model_for validate_llm_provider
model_for_lem provider [] used h = default_model_lem provider used h
model_for_lem provider (c ∷ model) used h =
    let (_, valid, same) = >>=-eq-ok (validate_llm_provider provider) _ h in
    let (d, e, _) = >>=-eq-ok (default_llm_model_for_provider provider) _ valid in
    ((default_model_lem provider d e).0, cc)

-- What the checks say of the section they accept.
record Accepted (provider endpoint : Bytes) (max_tool_rounds : ℕ) (after : LlmConfiguration)
    : Type 0 where
  known : provider ≡ codes "ollama"
  provider_kept : after.provider ≡ provider
  endpoint_kept : after.endpoint ≡ endpoint
  endpoint_given : endpoint ≢ []
  model_given : after.model ≢ []
  same_rounds : after.max_tool_rounds ≡ max_tool_rounds

checked-Accepted :
    (provider endpoint model : Bytes) (n : ℕ) (after : LlmConfiguration)
    → checked provider endpoint model n ≡ ok after
    → Accepted provider endpoint n after
unfolding checked
checked-Accepted [] endpoint model n after h = cc
checked-Accepted (p ∷ provider) [] model n after h = cc
checked-Accepted (p ∷ provider) (e ∷ endpoint) model n after h =
    let (used, same, built) = >>=-eq-ok (model_for (p ∷ provider) model) _ h in
    let (known, given) = model_for_lem (p ∷ provider) model used same in
    record {
      known = known;
      provider_kept = cc;
      endpoint_kept = cc;
      endpoint_given = λ x. cc;
      model_given = λ x. given cc;
      same_rounds = cc;
    }

-- A section that is accepted names the provider "ollama" up to white space, and leaves with a
-- provider, an endpoint and a model that are there, the endpoint as it was written up to white space
-- and the number of rounds as it was.
pub normalize_llm-IsUsable :
    (before after : LlmConfiguration)
    → normalize_llm before ≡ ok after
    → (trim before.provider ≡ codes "ollama") × IsUsable before after
unfolding normalize_llm
normalize_llm-IsUsable before after h =
    let a =
      checked-Accepted (trim before.provider) (trim before.endpoint) (trim before.model)
        before.max_tool_rounds after h in
    (
      a.known,
      record {
        provider = a.provider_kept ∙ a.known;
        endpoint = a.endpoint_kept;
        endpoint_given = λ x. a.endpoint_given (sym a.endpoint_kept ∙ x);
        model_given = a.model_given;
        same_rounds = a.same_rounds;
      },
    )

-- Nothing else is refused.
checked-ollama :
    (endpoint model : Bytes) (n : ℕ)
    → endpoint ≢ []
    → (after : LlmConfiguration) × (checked (codes "ollama") endpoint model n ≡ ok after)
unfolding checked model_for validate_llm_provider default_llm_model_for_provider eq_bytes
checked-ollama [] model n h = absurd (h refl)
checked-ollama (e ∷ endpoint) [] n h = (_, refl)
checked-ollama (e ∷ endpoint) (m ∷ model) n h = (_, refl)

-- The section is accepted where its provider is "ollama" up to white space and its endpoint is more
-- than white space.
pub normalize_llm_accepts :
    (before : LlmConfiguration)
    → trim before.provider ≡ codes "ollama"
    → trim before.endpoint ≢ []
    → (after : LlmConfiguration) × (normalize_llm before ≡ ok after)
unfolding normalize_llm
normalize_llm_accepts before provider endpoint =
    let (after, e) =
      checked-ollama (trim before.endpoint) (trim before.model) before.max_tool_rounds endpoint in
    (
      after,
      ap (λ p. checked p (trim before.endpoint) (trim before.model) before.max_tool_rounds) provider
          ∙ e,
    )

-- A configuration with an `[llm]` section is accepted exactly if the provider is "ollama" and the
-- endpoint is not empty, both up to white space.
pub normalize_configuration_iff :
    (conf : Configuration) (llm : LlmConfiguration)
    → conf.llm ≡ some llm
    → ((after : Configuration) × (normalize_configuration conf ≡ ok after))
      ↔ ((trim llm.provider ≡ codes "ollama") × (trim llm.endpoint ≢ []))
unfolding normalize_configuration normalize_section
normalize_configuration_iff conf llm h = (
  λ accepted.
      let (after, e) = accepted in
      let (section, e1, _) = >>=-eq-ok (normalize_section conf.llm) _ e in
      let (llm', e2, _) = >>=-eq-ok (normalize_llm llm) _ (sym (ap normalize_section h) ∙ e1) in
      let (provider, usable) = normalize_llm-IsUsable llm llm' e2 in
      (provider, λ x. usable.endpoint_given (usable.endpoint ∙ x)),
  λ given.
      let (provider, endpoint) = given in
      let (after, e) = normalize_llm_accepts llm provider endpoint in
      (
        record conf { llm = some after },
        ap (λ (r : Result (Option LlmConfiguration)). r >>= λ l. ok (record conf { llm = l }))
            (ap normalize_section h
              ∙ ap (λ (r : Result LlmConfiguration). r >>= λ l. ok (some l)) e),
      ),
)
