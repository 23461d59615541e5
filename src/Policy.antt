-- ===== src/Policy.antt =====
-- panel/components/policy/policy-editor-workspace.tsx and policy-editor-loader.tsx beside it: the draft
-- of a policy in its editor. Categories: categories-editor.tsx beside them.
pub mod Categories
pub mod Draft
use leakshield.Base.{ℕ, Bool, true, false, String, Option, none, List, [], ◌∷◌, ◌++◌, map}
use leakshield.Js.Text.{Text, lit}
use leakshield.Env.{coalesce}

-- `SAMPLE_POLICY`
unfoldable pub sample_policy : Text
sample_policy =
    lit "# LeakShield DLP policy\n"
    ++ lit "# Edit the judge prompt and category list, then run the test harness on the right.\n"
    ++ lit "strategy: hybrid\n"
    ++ lit "backend:\n"
    ++ lit "  kind: ollama\n"
    ++ lit "  model: qwen2.5:3b\n"
    ++ lit "categories:\n"
    ++ lit "  - name: PII.EMAIL\n"
    ++ lit "    severity: MASK\n"
    ++ lit "  - name: PROJECT.BLUEMOON\n"
    ++ lit "    severity: BLOCK\n"
    ++ lit "    keywords:\n"
    ++ lit "      - \"Project Bluemoon\"\n"
    ++ lit "      - \"PBM-\"\n"

-- A variable of the prompt, or a template.
pub record Sample : Type 0 where
  pub name : Text
  pub description : String

unfoldable pub sample_variables : List Sample
sample_variables =
    record { name = lit "company_name"; description = "Filled at runtime from the tenant." }
    ∷ record { name = lit "user_name"; description = "Filled from the calling user." }
    ∷ record { name = lit "request_kind"; description = "chat | completion | embedding." }
    ∷ []

unfoldable pub sample_templates : List Sample
sample_templates =
    record { name = lit "Hybrid default"; description = "Recommended starting point." }
    ∷ record {
      name = lit "Strict block-everything";
      description = "Useful for evaluating false-positive rates.";
    }
    ∷ record { name = lit "Open / mock"; description = "Always ALLOW; for stack tests." }
    ∷ []

pub record Version : Type 0 where
  pub id : String
  pub label : String
  pub note : String

unfoldable pub sample_versions : List Version
sample_versions =
    record { id = "v3"; label = "Current draft"; note = "Unsaved changes" }
    ∷ record { id = "v2"; label = "Published 2026-04-25"; note = "Active" }
    ∷ record { id = "v1"; label = "2026-04-12"; note = "Pre-Bluemoon launch" }
    ∷ []

pub record Workspace : Type 0 where
  pub policy : Text
  pub output : String

unfoldable pub new_workspace : Workspace
new_workspace = record {
  policy = sample_policy;
  output = "Run the test harness with a sample prompt to see the verdict here.";
}

-- What the workspace reacts to: a change in the editor, which may come without a text. The buttons for
-- a draft and for a run, and those of the templates, have no handler.
pub data PolicyEvent : Type 0 where
  changed : Option Text → PolicyEvent
  save_draft_clicked : PolicyEvent
  run_clicked : PolicyEvent
  template_clicked : Sample → PolicyEvent

-- `(v) => onChange?.(v ?? "")`
unfoldable pub on_change :
    (set_policy : Text → Workspace → Workspace) → Option Text → Workspace → Workspace
on_change set_policy v w = set_policy (coalesce v []) w

unfoldable pub policy_step : Workspace → PolicyEvent → Workspace
unfolding on_change
policy_step w (changed v) = on_change (λ next. λ w'. record w' { policy = next }) v w
policy_step w _ = w

unfoldable pub policy_run : List PolicyEvent → Workspace → Workspace
unfolding policy_step
policy_run [] w = w
policy_run (e ∷ es) w = policy_run es (policy_step w e)

-- The fixed options of the editor.
pub record EditorOptions : Type 0 where
  pub minimap : Bool
  pub font_size : ℕ
  pub scroll_beyond_last_line : Bool
  pub smooth_scrolling : Bool
  pub word_wrap : String
  pub render_line_highlight : String
  pub tab_size : ℕ
  pub automatic_layout : Bool

abbrev editor_options : EditorOptions
editor_options = record {
  minimap = false;
  font_size = 13;
  scroll_beyond_last_line = false;
  smooth_scrolling = true;
  word_wrap = "on";
  render_line_highlight = "all";
  tab_size = 2;
  automatic_layout = true;
}

-- The editor with the defaults of its language and height, and its fixed theme.
pub record EditorView : Type 0 where
  pub options : EditorOptions
  pub value : Text
  pub language : String
  pub height : String
  pub theme : String

unfoldable pub policy_editor : Text → (language height : Option String) → EditorView
policy_editor value language height = record {
  options = editor_options;
  value = value;
  language = coalesce language "yaml";
  height = coalesce height "100%";
  theme = "light";
}

pub record WorkspaceView : Type 0 where
  pub editor : EditorView
  pub output : String
  pub versions : List Version
  pub variables : List (Text × String)
  pub template_buttons : List Sample

-- A variable is shown in the braces that a policy has around it.
unfoldable pub policy_view : Workspace → WorkspaceView
unfolding policy_editor
policy_view w = record {
  editor = policy_editor w.policy none none;
  output = w.output;
  versions = sample_versions;
  variables = map (λ v. (lit "{{" ++ v.name ++ lit "}}", v.description)) sample_variables;
  template_buttons = sample_templates;
}
