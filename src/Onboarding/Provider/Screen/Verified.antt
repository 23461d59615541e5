-- ===== src/Onboarding/Provider/Screen/Verified.antt =====
-- Step2Provider, handleTest and handleSave: whether what is saved is what was tested.
use leakshield.Base.{
  ◌≤◌, ◌≡◌, refl, Bool, true, false, not, ◌||◌, Option, none, some, List, [], ◌∷◌, ◌++◌, arith,
  length, if_either, inl, inr, if◌then◌else◌,
}
use leakshield.Base.Result.{Result, Result-cases, ok, throw}
use leakshield.Js.Json.{Json}
use leakshield.Js.Http.{Upstream, is_ok}
use leakshield.Onboarding.Provider.Form.{ProviderId, FormState, test_body}
use leakshield.Onboarding.Provider.Screen.{
  TestResult, passed, failed, Screen, Job, testing, saving, initial, is_pending, is_passed,
  required_ok, can_save, pick, update, update_azure_row, add_azure_row, remove_azure_row,
  start_test, handle_test, start_save, handle_save, test_reply, settle_test, settle_save,
  settle_jobs, settle, show_failure, save_failure, Event, picked, edited, row_edited, row_added,
  row_removed, skip_set, test_clicked, save_clicked, settled, probed, react, step,
}
use leakshield.Onboarding.Provider.Screen.Invariant.{Inv, step-Inv, initial-Inv}

-- The body of the last test that passed, beside the screen.
abbrev pub passed_by : List Job → Result Upstream → Option Json → Option Json
passed_by (testing body ∷ _) (ok res) old = elim (test_reply res) [
  | ok (passed _) ↦ some body
  | _ ↦ old
]
passed_by _ _ old = old

abbrev pub passed_body : Event → Screen → Option Json → Option Json
passed_body (settled reply) s old = if s.crashed then old else passed_by s.in_flight reply old
passed_body _ s old = old

-- Nothing is edited while an action runs, and no row is added or removed once a test has passed.
abbrev pub IsQuiet : Event → Screen → Type 0
IsQuiet (picked p) s = is_pending s ≡ false
IsQuiet (edited k v) s = is_pending s ≡ false
IsQuiet (row_edited i p) s = is_pending s ≡ false
IsQuiet row_added s = (is_pending s ≡ false) × (is_passed s.test_result ≡ false)
IsQuiet (row_removed i) s = (is_pending s ≡ false) × (is_passed s.test_result ≡ false)
IsQuiet _ s = Unit

-- The reached screen and the body of the last test that passed, after quiet events only.
pub data Quiet : Screen → Option Json → Type 0 where
  start : Quiet initial none
  next :
      {s : Screen} {b : Option Json} (e : Event)
      → Quiet s b
      → IsQuiet e s
      → Quiet (step e s) (passed_body e s b)

-- The body is the one that a test of the form would post now.
abbrev IsCurrent : Option ProviderId → FormState → Json → Type 0
IsCurrent sel f b = (p : ProviderId) × (sel ≡ some p) × (b ≡ test_body p f)

abbrev ResultMatches : Option TestResult → Option ProviderId → FormState → Option Json → Type 0
ResultMatches (some (passed _)) sel f b = (c : Json) × (b ≡ some c) × IsCurrent sel f c
ResultMatches _ sel f b = Unit

abbrev JobsMatch : List Job → Option ProviderId → FormState → Type 0
JobsMatch (testing b ∷ _) sel f = IsCurrent sel f b
JobsMatch _ sel f = Unit

record Matches (s : Screen) (b : Option Json) : Type 0 where
  result : ResultMatches s.test_result s.selected s.form b
  jobs : JobsMatch s.in_flight s.selected s.form

idle-JobsMatch :
    (js : List Job) (sel : Option ProviderId) (f : FormState)
    → (elim js [ [] ↦ false | _ ∷ _ ↦ true ]) ≡ false
    → JobsMatch js sel f
idle-JobsMatch [] sel f h = tt
idle-JobsMatch (j ∷ js) sel f h = cc

unpassed-ResultMatches :
    (r : Option TestResult) (sel : Option ProviderId) (f : FormState) (b : Option Json)
    → is_passed r ≡ false
    → ResultMatches r sel f b
unpassed-ResultMatches none sel f b h = tt
unpassed-ResultMatches (some (failed e d)) sel f b h = tt
unpassed-ResultMatches (some (passed m)) sel f b h = cc

snoc-JobsMatch :
    (js : List Job) (sel : Option ProviderId) (f : FormState) (b : Json)
    → (elim js [ [] ↦ false | _ ∷ _ ↦ true ]) ≡ false
    → IsCurrent sel f b
    → JobsMatch (js ++ testing b ∷ []) sel f
snoc-JobsMatch [] sel f b h c = c
snoc-JobsMatch (j ∷ js) sel f b h c = cc

snoc_saving-JobsMatch :
    (js : List Job) (sel : Option ProviderId) (f : FormState) (b : Json)
    → (elim js [ [] ↦ false | _ ∷ _ ↦ true ]) ≡ false
    → JobsMatch (js ++ saving b ∷ []) sel f
snoc_saving-JobsMatch [] sel f b h = tt
snoc_saving-JobsMatch (j ∷ js) sel f b h = cc

if_Matches :
    (c : Bool) (x y : Screen) (u v : Option Json)
    → Matches x u
    → Matches y v
    → Matches (if c then x else y) (if c then u else v)
if_Matches true x y u v h k = h
if_Matches false x y u v h k = k

module _ (s : Screen) (b : Option Json) (m : Matches s b) where
  start_test-Matches :
      (sel : Option ProviderId)
      → s.selected ≡ sel
      → is_pending s ≡ false
      → Matches (start_test sel s) b
  unfolding start_test
  start_test-Matches none e q = m
  start_test-Matches (some p) e q =
      if_either (λ x. Matches x b) (required_ok s) _ s
        (λ _. record {
          result = tt;
          jobs = snoc-JobsMatch s.in_flight s.selected s.form _ q (p, e, refl);
        })
        (λ _. m)

  start_save-Matches :
      (sel : Option ProviderId) → is_pending s ≡ false → Matches (start_save sel s) b
  unfolding start_save
  start_save-Matches none q = m
  start_save-Matches (some p) q =
      if_either (λ x. Matches x b) (can_save s) _ s
        (λ _. record {
          result = m.result;
          jobs = snoc_saving-JobsMatch s.in_flight s.selected s.form _ q;
        })
        (λ _. m)

  settle_test-Matches :
      (body : Json) (reply : Result Upstream)
      → IsCurrent s.selected s.form body
      → Matches
          (settle_test reply (record s { in_flight = [] }))
          (passed_by (testing body ∷ []) reply b)
  unfolding settle_test
  settle_test-Matches body (throw x) c = record { result = m.result; jobs = tt }
  settle_test-Matches body (ok res) c = elim (Result-cases (test_reply res)) [
    | inl (passed models, e) ↦
        rw (e, settle_test, passed_by) (record { result = (body, refl, c); jobs = tt })
    | inl (failed x d, e) ↦ rw (e, settle_test, passed_by) (record { result = tt; jobs = tt })
    | inr (x, e) ↦ rw (e, settle_test, passed_by) (record { result = m.result; jobs = tt })
  ]

  show_failure-Matches :
      (f : Result (Bool × Json)) → Matches (show_failure f (record s { in_flight = [] })) b
  show_failure-Matches (ok (demo, e)) = record { result = m.result; jobs = tt }
  show_failure-Matches (throw x) = record { result = m.result; jobs = tt }

  settle_save-Matches :
      (body : Json) (reply : Result Upstream)
      → Matches (settle_save reply (record s { in_flight = [] })) b
  unfolding settle_save
  settle_save-Matches body (throw x) = record { result = m.result; jobs = tt }
  settle_save-Matches body (ok res) =
      if_either (λ x. Matches x b) (is_ok res.status) _ _
        (λ _. record { result = m.result; jobs = tt })
        (λ _. show_failure-Matches (save_failure res))

  settle_jobs-Matches :
      (js : List Job) (reply : Result Upstream)
      → JobsMatch js s.selected s.form
      → length js ≤ 1
      → Matches (settle_jobs js reply s) (passed_by js reply b)
  unfolding settle_jobs
  settle_jobs-Matches [] reply j one = m
  settle_jobs-Matches (testing body ∷ []) reply j one = settle_test-Matches body reply j
  settle_jobs-Matches (saving body ∷ []) reply j one = settle_save-Matches body reply
  settle_jobs-Matches (j₁ ∷ j₂ ∷ js) reply j one = absurd (omega arith)

  react-Matches : (e : Event) → Inv s → IsQuiet e s → Matches (step e s) (passed_body e s b)
  unfolding step react pick update update_azure_row add_azure_row remove_azure_row handle_test
      handle_save settle
  react-Matches (picked p) v q =
      if_either (λ x. Matches x b) s.crashed s _ (λ _. m)
        (λ _. record { result = tt; jobs = idle-JobsMatch s.in_flight _ _ q })
  react-Matches (edited k w) v q =
      if_either (λ x. Matches x b) s.crashed s _ (λ _. m)
        (λ _. record { result = tt; jobs = idle-JobsMatch s.in_flight _ _ q })
  react-Matches (row_edited i p) v q =
      if_either (λ x. Matches x b) s.crashed s _ (λ _. m)
        (λ _. record { result = tt; jobs = idle-JobsMatch s.in_flight _ _ q })
  react-Matches row_added v q =
      if_either (λ x. Matches x b) s.crashed s _ (λ _. m)
        (λ _. record {
          result = unpassed-ResultMatches s.test_result _ _ b q.1;
          jobs = idle-JobsMatch s.in_flight _ _ q.0;
        })
  react-Matches (row_removed i) v q =
      if_either (λ x. Matches x b) s.crashed s _ (λ _. m)
        (λ _. record {
          result = unpassed-ResultMatches s.test_result _ _ b q.1;
          jobs = idle-JobsMatch s.in_flight _ _ q.0;
        })
  react-Matches (skip_set k) v q =
      if_either (λ x. Matches x b) s.crashed s _ (λ _. m)
        (λ _. record { result = m.result; jobs = m.jobs })
  react-Matches test_clicked v q =
      if_either (λ x. Matches x b) s.crashed s _ (λ _. m)
        (λ _.
          if_either (λ x. Matches x b) (is_pending s || not (required_ok s)) s _ (λ _. m)
            (λ on. start_test-Matches s.selected refl (ground arith)))
  react-Matches save_clicked v q =
      if_either (λ x. Matches x b) s.crashed s _ (λ _. m)
        (λ _.
          if_either (λ x. Matches x b) (is_pending s || not (can_save s)) s _ (λ _. m)
            (λ on. start_save-Matches s.selected (ground arith)))
  react-Matches (settled reply) v q =
      if_Matches s.crashed s _ b _ m (settle_jobs-Matches s.in_flight reply m.jobs v.one_job)
  react-Matches (probed reply) v q =
      if_either (λ x. Matches x b) s.crashed s _ (λ _. m)
        (λ _. record { result = m.result; jobs = m.jobs })

Quiet-Inv : {s : Screen} {b : Option Json} → Quiet s b → Inv s
Quiet-Inv start = initial-Inv
Quiet-Inv (next {s = s} e r q) = step-Inv e s (Quiet-Inv r)

Quiet-Matches : {s : Screen} {b : Option Json} → Quiet s b → Matches s b
unfolding initial
Quiet-Matches start = record { result = tt; jobs = tt }
Quiet-Matches (next {s = s} {b = b} e r q) = react-Matches s b (Quiet-Matches r) e (Quiet-Inv r) q

passed_result :
    (r : Option TestResult) (sel : Option ProviderId) (f : FormState) (b : Option Json)
    → is_passed r ≡ true
    → ResultMatches r sel f b
    → (c : Json) × (b ≡ some c) × IsCurrent sel f c
passed_result (some (passed m)) sel f b h r = r
passed_result (some (failed e d)) sel f b h r = cc
passed_result none sel f b h r = cc

-- Events are quiet when nothing is picked or edited while an action runs, and no deployment row is
-- added or removed once a test has passed. After quiet events only, a screen that can be saved without
-- the opt-out has been tested as it stands: the last test that passed posted the provider, the key and
-- the configuration that the form holds now.
pub Quiet-tested :
    {s : Screen} {b : Option Json}
    → Quiet s b
    → can_save s ≡ true
    → s.skip_test ≡ false
    → (p : ProviderId) × (s.selected ≡ some p) × (b ≡ some (test_body p s.form))
unfolding can_save
Quiet-tested {s} {b} r can skip =
    let (c, found, (p, sel, same)) =
      passed_result s.test_result s.selected s.form b (ground arith) (Quiet-Matches r).result in
    (p, sel, rw (← same) found)
