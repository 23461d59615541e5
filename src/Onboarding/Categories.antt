-- ===== src/Onboarding/Categories.antt =====
-- panel/components/onboarding/step-4-categories.tsx: the templates that the admin may select.
pub mod Pressed
use leakshield.Base.{String, Bool, not, ◌||◌, List, [], ◌∷◌, ◌++◌, map, any, filter, if◌then◌else◌}
use leakshield.Js.Text.{Text, lit, text_eq}

pub data Severity : Type 0 where
  allow mask block : Severity

-- `QuickStartTemplate`, without its icon.
pub record Template : Type 0 where
  pub id : Text
  pub name : String
  pub prompt : String
  pub description : String
  pub severity : Severity

unfoldable pub templates : List Template
templates =
    record {
      id = lit "project-codenames";
      name = "Project codenames";
      prompt = "We have proprietary project codenames";
      description =
          "Spin up a keyword-list category for your internal product / project codenames so they never leave the building.";
      severity = block;
    }
    ∷ record {
      id = lit "customer-directory";
      name = "Customer / vendor directory";
      prompt = "We have customer / vendor lists";
      description =
          "Upload a CSV of names; it's hashed at rest and evaluated through a Bloom filter so the raw list never enters LLM context.";
      severity = mask;
    }
    ∷ record {
      id = lit "mna";
      name = "M&A / pending deals";
      prompt = "We want to block pending M&A discussions";
      description =
          "Adds an LLM-judged category with a pre-written description for any mention of pending deals, due diligence, or related advisors.";
      severity = block;
    }
    ∷ record {
      id = lit "code-secrets";
      name = "Source code secrets";
      prompt = "Keep source-code secrets out of prompts";
      description =
          "Toggles the built-in CODE.SECRET_IN_SOURCE category to BLOCK so PEM blocks, API keys, and AWS credentials in pasted code are stopped.";
      severity = block;
    }
    ∷ []

-- A `Set` of ids, in the order of insertion.
abbrev pub Selection : Type 0
Selection = List Text

unfoldable pub is_chosen : Text → Selection → Bool
is_chosen id = any (text_eq id)

unfoldable pub delete : Text → Selection → Selection
delete id = filter (λ other. not (text_eq other id))

unfoldable pub toggle : Text → Selection → Selection
unfolding is_chosen delete
toggle id selected = if is_chosen id selected then delete id selected else selected ++ id ∷ []

unfoldable pub badge_variant : Severity → String
badge_variant block = "destructive"
badge_variant mask = "warning"
badge_variant allow = "secondary"

-- The button of one template; a click toggles its id.
pub record TemplateView : Type 0 where
  pub id : Text
  pub pressed : Bool
  pub name : String
  pub badge : String
  pub description : String

unfoldable pub template_view : Selection → Template → TemplateView
unfolding is_chosen badge_variant
template_view selected t = record {
  id = t.id;
  pressed = is_chosen t.id selected;
  name = t.name;
  badge = badge_variant t.severity;
  description = t.description;
}

unfoldable pub categories_view : Selection → List TemplateView
unfolding template_view templates
categories_view selected = map (template_view selected) templates

-- The selection after the clicks, each on the button of an id, the first click first.
unfoldable pub clicks : List Text → Selection → Selection
unfolding toggle
clicks [] selected = selected
clicks (id ∷ ids) selected = clicks ids (toggle id selected)
