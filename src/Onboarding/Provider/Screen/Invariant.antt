-- ===== src/Onboarding/Provider/Screen/Invariant.antt =====
-- Step2Provider after any events: the requests in flight, and the rows of the deployment map.
use leakshield.Base.{
  ℕ, zero, suc, ◌+◌, ◌≤◌, ◌≡◌, refl, false, not, ◌||◌, List, [], ◌∷◌, ◌++◌, arith, length,
  Bool-cases, inl, inr, if_either,
}
use leakshield.Base.Result.{Result, ok, throw}
use leakshield.Js.Http.{Upstream}
use leakshield.Onboarding.Provider.Form.{
  FormState, DeploymentRow, FieldKey, RowPatch, empty_row, empty_form, set_field, patch_rows,
  drop_row, remove_row,
}
use leakshield.Onboarding.Provider.Screen.{
  Screen, Job, initial, is_pending, required_ok, can_save, pick, update, update_azure_row,
  add_azure_row, remove_azure_row, handle_test, handle_save, settle_test, settle_save, settle,
  Event, picked, edited, row_edited, row_added, row_removed, skip_set, test_clicked, save_clicked,
  settled, probed, react, step, run,
}

pub record Inv (s : Screen) : Type 0 where
  pub one_job : length s.in_flight ≤ 1
  pub some_row : 1 ≤ length s.form.azure_deployments

length-patch_rows :
    (i : ℕ) (p : RowPatch) (rs : List DeploymentRow) → length (patch_rows i p rs) ≡ length rs
unfolding patch_rows
length-patch_rows i p [] = refl
length-patch_rows zero p (r ∷ rs) = refl
length-patch_rows (suc i) p (r ∷ rs) = omega (arith, length-patch_rows i p rs)

length-drop_row : (i : ℕ) (rs : List DeploymentRow) → length rs ≤ length (drop_row i rs) + 1
unfolding drop_row
length-drop_row i [] = omega arith
length-drop_row zero (r ∷ rs) = omega arith
length-drop_row (suc i) (r ∷ rs) = omega (arith, length-drop_row i rs)

remove_row-some : (i : ℕ) (rs : List DeploymentRow) → 1 ≤ length rs → 1 ≤ length (remove_row i rs)
unfolding remove_row
remove_row-some i rs h = ground (arith, length-drop_row i rs)

length-snoc {ℓ} : {A : Type ℓ} (xs : List A) (x : A) → length (xs ++ x ∷ []) ≡ length xs + 1
length-snoc [] x = omega arith
length-snoc (y ∷ xs) x = omega (arith, length-snoc xs x)

set_field-rows :
    (k : FieldKey) (v : _) (f : FormState)
    → (set_field k v f).azure_deployments ≡ f.azure_deployments
unfolding set_field
set_field-rows k v f = ground arith

not_pending : (s : Screen) → is_pending s ≡ false → length s.in_flight ≡ 0
not_pending s h = ground arith

abbrev tail_jobs : Screen → List Job
tail_jobs s = elim s.in_flight [ [] ↦ [] | _ ∷ js ↦ js ]

settle_test-same :
    (reply : Result Upstream) (s : Screen)
    → ((settle_test reply s).in_flight ≡ s.in_flight) × ((settle_test reply s).form ≡ s.form)
unfolding settle_test
settle_test-same reply s = ground arith

settle_save-same :
    (reply : Result Upstream) (s : Screen)
    → ((settle_save reply s).in_flight ≡ s.in_flight) × ((settle_save reply s).form ≡ s.form)
unfolding settle_save
settle_save-same (throw e) s = (refl, refl)
settle_save-same (ok res) s = ground arith

settle-Inv : (reply : Result Upstream) (s : Screen) → Inv s → Inv (settle reply s)
unfolding settle
settle-Inv reply s h = ground (
  arith,
  settle_test-same reply (record s { in_flight = tail_jobs s }),
  settle_save-same reply (record s { in_flight = tail_jobs s }),
)

handle_test-Inv : (s : Screen) → Inv s → is_pending s ≡ false → Inv (handle_test s)
unfolding handle_test
handle_test-Inv s h q = ground arith

handle_save-Inv : (s : Screen) → Inv s → is_pending s ≡ false → Inv (handle_save s)
unfolding handle_save
handle_save-Inv s h q = ground arith

react-Inv : (e : Event) (s : Screen) → Inv s → Inv (react e s)
unfolding react pick update update_azure_row add_azure_row remove_azure_row empty_form
react-Inv (picked p) s h = record { one_job = h.one_job; some_row = omega arith }
react-Inv (edited k v) s h = record {
  one_job = h.one_job;
  some_row = rw (set_field-rows k v s.form) h.some_row;
}
react-Inv (row_edited i p) s h = record {
  one_job = h.one_job;
  some_row = omega (arith, length-patch_rows i p s.form.azure_deployments);
}
react-Inv row_added s h = record {
  one_job = h.one_job;
  some_row = omega (arith, length-snoc s.form.azure_deployments empty_row);
}
react-Inv (row_removed i) s h = record {
  one_job = h.one_job;
  some_row = remove_row-some i s.form.azure_deployments h.some_row;
}
react-Inv (skip_set b) s h = record { one_job = h.one_job; some_row = h.some_row }
react-Inv test_clicked s h = elim (Bool-cases (is_pending s || not (required_ok s))) [
  | inl off ↦ rw off h
  | inr on ↦ rw on (handle_test-Inv s h (ground arith))
]
react-Inv save_clicked s h = elim (Bool-cases (is_pending s || not (can_save s))) [
  | inl off ↦ rw off h
  | inr on ↦ rw on (handle_save-Inv s h (ground arith))
]
react-Inv (settled reply) s h = settle-Inv reply s h
react-Inv (probed reply) s h = record { one_job = h.one_job; some_row = h.some_row }

pub step-Inv : (e : Event) (s : Screen) → Inv s → Inv (step e s)
unfolding step
step-Inv e s h = if_either Inv s.crashed s (react e s) (λ _. h) (λ _. react-Inv e s h)

run-Inv : (es : List Event) (s : Screen) → Inv s → Inv (run s es)
unfolding run
run-Inv [] s h = h
run-Inv (e ∷ es) s h = run-Inv es (step e s) (step-Inv e s h)

pub initial-Inv : Inv initial
unfolding initial
initial-Inv = omega arith

-- After any clicks, edits and answers, at most one request of the screen is in flight, since both
-- buttons are disabled meanwhile, and the deployment map has a row.
pub run-initial-Inv : (es : List Event) → Inv (run initial es)
run-initial-Inv es = run-Inv es initial initial-Inv
