-- ===== src/Onboarding/Wizard/Trail.antt =====
-- Walks through the wizard, from page to page, by every way out of a page.
use mathlib.Core.List.{Memᴰ}
use mathlib.Core.Path.{subst}
use leakshield.Base.{
  ℕ, ◌+◌, ◌≤◌, ◌≡◌, refl, sym, ap, ◌∙◌, inl, inr, some, List, [], ◌∷◌, ◌++◌, arith, ◌==◌,
  Bool-cases,
}
use leakshield.Js.Text.{Text, lit}
use leakshield.Js.Http.{Server}
use leakshield.Onboarding.Wizard.{StepPage, step_page}
use leakshield.Onboarding.Wizard.Walk.{
  LeavesBy, ShowsStep, onward, backward, finished, turned_away, step_page-leads,
}

-- From a path to a path, with the numbers of the pages that have been shown and left on the way.
pub data Walk (srv : Server) : Text → List ℕ → Text → Type 0 where
  stop : {path : Text} → Walk srv path [] path
  go_on :
      {path end : Text} {ns : List ℕ} (segment : Text) (page : StepPage) (next : Text)
      → path ≡ lit "/onboarding/" ++ segment
      → step_page srv segment ≡ some page
      → LeavesBy page.body next
      → Walk srv next ns end
      → Walk srv path (page.step ∷ ns) end

-- The numbers of the pages that are left, from the given one, and where that ends: at the page of a step, at
-- the dashboard after the fifth page, or at the sign-in page after the first. Each next page is the page
-- of the next step, or of the step before, from the last two.
pub data IsTrail (srv : Server) : ℕ → List ℕ → Text → Type 0 where
  at_page : {n : ℕ} {end : Text} → ShowsStep srv n end → IsTrail srv n [] end
  next_page :
      {n : ℕ} {ns : List ℕ} {end : Text} → IsTrail srv (n + 1) ns end → IsTrail srv n (n ∷ ns) end
  page_before :
      {m n : ℕ} {ns : List ℕ} {end : Text}
      → n ≡ m + 1
      → 4 ≤ n
      → IsTrail srv m ns end
      → IsTrail srv n (n ∷ ns) end
  at_dashboard : {n : ℕ} {end : Text} → n ≡ 5 → end ≡ lit "/dashboard" → IsTrail srv n (n ∷ []) end
  at_sign_in :
      {n : ℕ} {end : Text} (encoded : Text)
      → n ≡ 1
      → end ≡ lit "/sign-in?email=" ++ encoded
      → IsTrail srv n (n ∷ []) end

-- A trail to the dashboard shows each page from the first one on.
pub record IsGuided (srv : Server) (n : ℕ) (ns : List ℕ) (end : Text) : Type 0 where
  pub trail : IsTrail srv n ns end
  pub complete : end ≡ lit "/dashboard" → (m : ℕ) → n ≤ m → m ≤ 5 → Memᴰ m ns

same_segment : (a b : Text) → lit "/onboarding/" ++ a ≡ lit "/onboarding/" ++ b → a ≡ b
unfolding lit
same_segment a b e = cc

not_dashboard : (a : Text) → lit "/dashboard" ≡ lit "/onboarding/" ++ a → ⊥
unfolding lit
not_dashboard a e = cc

abbrev second : Text → ℕ
second (_ ∷ c ∷ _) = c
second _ = 0

sign_in_page-onboarding : (a b : Text) → lit "/sign-in?email=" ++ a ≡ lit "/onboarding/" ++ b → ⊥
unfolding lit
sign_in_page-onboarding a b e =
    let wrong : ◌≡◌ {A = ℕ} b's' b'o' = ap second e in absurd (omega arith)

sign_in_page-dashboard : (a : Text) → lit "/sign-in?email=" ++ a ≡ lit "/dashboard" → ⊥
unfolding lit
sign_in_page-dashboard a e = cc

-- A walk goes no further from a path that is below no step.
Walk-outside :
    {srv : Server} {path end : Text} {ns : List ℕ}
    → ((segment : Text) → path ≡ lit "/onboarding/" ++ segment → ⊥)
    → Walk srv path ns end
    → (ns ≡ []) × (end ≡ path)
Walk-outside outside stop = (refl, refl)
Walk-outside outside (go_on segment page next below shown left rest) =
    absurd (outside segment below)

ShowsStep-page :
    (srv : Server) (n : ℕ) (path segment : Text) (page : StepPage)
    → ShowsStep srv n path
    → path ≡ lit "/onboarding/" ++ segment
    → step_page srv segment ≡ some page
    → page.step ≡ n
ShowsStep-page srv n path segment page s below shown =
    let same = same_segment s.segment segment (sym s.below ∙ below) in
    let shown' : step_page srv segment ≡ some s.page = rw same at s.shown in
    let found : some s.page ≡ some page = sym shown' ∙ shown in
    let equal : s.page ≡ page = cc in rw (← equal) s.numbered

one_page :
    (srv : Server) (n : ℕ) (ns : List ℕ) (end : Text)
    → IsTrail srv n (n ∷ []) end
    → ns ≡ []
    → IsTrail srv n (n ∷ ns) end
one_page srv n [] end t e = t
one_page srv n (m ∷ ms) end t e = cc

Walk-IsTrail :
    (srv : Server) (n : ℕ) (path end : Text) (ns : List ℕ)
    → ShowsStep srv n path
    → Walk srv path ns end
    → IsTrail srv n ns end
Walk-IsTrail srv n path end ns s stop = at_page s
Walk-IsTrail srv n path end ns s (go_on {ns = ms} segment page next below shown left rest) =
    let numbered = ShowsStep-page srv n path segment page s below shown in
    subst (λ k. IsTrail srv k (page.step ∷ ms) end) numbered
      (elim (step_page-leads srv segment page next shown left) [
        | onward shows ↦ next_page (Walk-IsTrail srv (page.step + 1) next end ms shows rest)
        | backward m e late shows ↦ page_before e late (Walk-IsTrail srv m next end ms shows rest)
        | finished fifth to ↦
            let (none_left, at) = Walk-outside (λ b. λ e. not_dashboard b (sym to ∙ e)) rest in
            one_page srv page.step ms end (at_dashboard fifth (at ∙ to)) none_left
        | turned_away encoded first to ↦
            let (none_left, at) =
              Walk-outside (λ b. λ e. sign_in_page-onboarding encoded b (sym to ∙ e)) rest in
            one_page srv page.step ms end (at_sign_in encoded first (at ∙ to)) none_left
      ])

IsTrail-complete :
    (srv : Server) (n : ℕ) (ns : List ℕ) (end : Text)
    → IsTrail srv n ns end
    → end ≡ lit "/dashboard"
    → (m : ℕ) → n ≤ m
    → m ≤ 5
    → Memᴰ m ns
IsTrail-complete srv n ns end (at_page s) e m low high =
    absurd (not_dashboard s.segment (sym e ∙ s.below))
IsTrail-complete srv n ns end (next_page {ns = ms} t) e m low high = elim (Bool-cases (m == n)) [
  | inl same ↦ Memᴰ.head (ground arith)
  | inr other ↦ Memᴰ.tail (IsTrail-complete srv (n + 1) ms end t e m (ground arith) high)
]
IsTrail-complete srv n ns end (page_before {m = k} {ns = ms} before late t) e m low high =
    Memᴰ.tail (IsTrail-complete srv k ms end t e m (omega arith) high)
IsTrail-complete srv n ns end (at_dashboard fifth to) e m low high = Memᴰ.head (omega arith)
IsTrail-complete srv n ns end (at_sign_in encoded first to) e m low high =
    absurd (sign_in_page-dashboard encoded (sym to ∙ e))

-- Every walk that begins at a page of the wizard and goes by the exits of its pages, the failed sign-in and
-- the links back among them, leads from each page to the next one, or from the last two to the one
-- before. It ends at the sign-in page only after the first page and at the dashboard only after the fifth,
-- and then no page from the one where it began to the fifth has been left out.
pub Walk-IsGuided :
    (srv : Server) (n : ℕ) (path end : Text) (ns : List ℕ)
    → ShowsStep srv n path
    → Walk srv path ns end
    → IsGuided srv n ns end
Walk-IsGuided srv n path end ns s w =
    let t = Walk-IsTrail srv n path end ns s w in
    record { trail = t; complete = IsTrail-complete srv n ns end t }
