-- ===== src/Onboarding/Provider/Tiles.antt =====
-- The four providers of step 2, and their cards.
use leakshield.Base.{String, Bool, true, false, Option, none, some, List, [], ◌∷◌}
use leakshield.Onboarding.Provider.Form.{ProviderId, openai, anthropic, google, azure}

-- `ProviderTile`, without its icon.
pub record ProviderTile : Type 0 where
  pub id : ProviderId
  pub name : String
  pub blurb : String

-- `PROVIDERS`
abbrev pub provider_tiles : List ProviderTile
provider_tiles =
    record { id = openai; name = "OpenAI"; blurb = "GPT-4o, GPT-4.1, o-series" }
    ∷ record { id = anthropic; name = "Anthropic"; blurb = "Claude Sonnet, Opus, Haiku" }
    ∷ record { id = google; name = "Google"; blurb = "Gemini via Vertex AI" }
    ∷ record { id = azure; name = "Azure OpenAI"; blurb = "Deployed via Azure resources" }
    ∷ []

-- A provider's card: it is pressed, and has the badge, if it is selected. A click picks its id.
pub record CardView : Type 0 where
  pub id : ProviderId
  pub name : String
  pub blurb : String
  pub pressed : Bool
  pub badge : Option String

abbrev is_selected : Option ProviderId → ProviderId → Bool
is_selected (some openai) openai = true
is_selected (some anthropic) anthropic = true
is_selected (some google) google = true
is_selected (some azure) azure = true
is_selected _ _ = false

abbrev badge_if : Bool → Option String
badge_if true = some "Selected"
badge_if false = none

unfoldable pub card : Option ProviderId → ProviderTile → CardView
card selected p = record {
  id = p.id;
  name = p.name;
  blurb = p.blurb;
  pressed = is_selected selected p.id;
  badge = badge_if (is_selected selected p.id);
}
