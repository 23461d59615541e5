-- ===== src/Policy/Draft.antt =====
-- What the policy workspace shows after any events.
use leakshield.Base.{◌≡◌, refl, none, some, List, [], ◌∷◌}
use leakshield.Js.Text.{Text}
use leakshield.Policy.{
  PolicyEvent, Workspace, changed, new_workspace, on_change, policy_editor, policy_run, policy_step,
  policy_view, run_clicked, sample_policy, save_draft_clicked, template_clicked,
}

-- The text of the latest change, where one without a text empties the editor; without a change, as
-- before.
abbrev pub latest : Text → List PolicyEvent → Text
latest before [] = before
latest before (changed none ∷ es) = latest [] es
latest before (changed (some v) ∷ es) = latest v es
latest before (save_draft_clicked ∷ es) = latest before es
latest before (run_clicked ∷ es) = latest before es
latest before (template_clicked t ∷ es) = latest before es

policy_run-policy :
    (es : List PolicyEvent) (w : Workspace) → (policy_run es w).policy ≡ latest w.policy es
unfolding policy_run policy_step on_change
policy_run-policy [] w = refl
policy_run-policy (changed none ∷ es) w = policy_run-policy es _
policy_run-policy (changed (some v) ∷ es) w = policy_run-policy es _
policy_run-policy (save_draft_clicked ∷ es) w = policy_run-policy es w
policy_run-policy (run_clicked ∷ es) w = policy_run-policy es w
policy_run-policy (template_clicked t ∷ es) w = policy_run-policy es w

policy_run-output : (es : List PolicyEvent) (w : Workspace) → (policy_run es w).output ≡ w.output
unfolding policy_run policy_step on_change
policy_run-output [] w = refl
policy_run-output (changed v ∷ es) w = policy_run-output es _
policy_run-output (save_draft_clicked ∷ es) w = policy_run-output es w
policy_run-output (run_clicked ∷ es) w = policy_run-output es w
policy_run-output (template_clicked t ∷ es) w = policy_run-output es w

-- After any events the editor shows the text of the latest change, or the sample without one, and the
-- sentence below the test harness is the first one still, however often Run has been clicked.
pub policy_view-latest :
    (es : List PolicyEvent)
    → let v = policy_view (policy_run es new_workspace) in
      (v.editor.value ≡ latest sample_policy es) × (v.output ≡ new_workspace.output)
unfolding policy_view policy_editor new_workspace
policy_view-latest es = (policy_run-policy es new_workspace, policy_run-output es new_workspace)
