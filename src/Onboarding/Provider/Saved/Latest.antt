-- ===== src/Onboarding/Provider/Saved/Latest.antt =====
-- panel/components/onboarding/step-2-provider.tsx, ProviderList: which answer the list shows.
use leakshield.Base.{
  ℕ, suc, ◌≡◌, refl, Bool, true, false, List, [], ◌∷◌, ◌==◌, ==_iff, if_either, ap, if◌then◌else◌,
  ◌∙◌, sym,
}
use mathlib.Core.List.{Memᴰ}
use leakshield.Base.Result.{Result}
use leakshield.Js.Http.{Upstream, Server}
use leakshield.Onboarding.Provider.Saved.{
  Listing, opened, loaded, ListEvent, refreshed, answered, list_step,
}

-- The events so far, the latest first, and the list that they lead to.
pub data Listed (srv : Server) : List ListEvent → Listing → Type 0 where
  begin : Listed srv [] opened
  then_on :
      {es : List ListEvent} {l : Listing} (e : ListEvent)
      → Listed srv es l
      → Listed srv (e ∷ es) (list_step srv e l)

-- How many refreshes there were: the number of the latest effect.
abbrev pub refreshes : List ListEvent → ℕ
refreshes [] = 0
refreshes (refreshed ∷ es) = suc (refreshes es)
refreshes (answered _ _ ∷ es) = refreshes es

-- The latest effect has been answered by `reply`.
pub record Shows (srv : Server) (es : List ListEvent) (l : Listing) : Type 0 where
  pub reply : Result Upstream
  pub arrived : Memᴰ (answered (refreshes es) reply) es
  pub shown : l.shown ≡ loaded srv reply

Listed-current :
    {srv : Server} {es : List ListEvent} {l : Listing} → Listed srv es l → l.current ≡ refreshes es
unfolding opened list_step
Listed-current begin = refl
Listed-current (then_on {es = es} {l = l} refreshed r) = ap suc (Listed-current r)
Listed-current {srv} (then_on {es = es} {l = l} (answered n reply) r) =
    if_either (λ x. x.current ≡ refreshes es) (n == l.current) _ l (λ _. Listed-current r)
      (λ _. Listed-current r)

-- Of the two lists that a test chooses between, the chosen one is not loading.
either_listing :
    (P : Listing → Type 0) (c : Bool) (x y : Listing)
    → (if c then x else y).loading ≡ false
    → (c ≡ true → P x)
    → (y.loading ≡ false → P y)
    → P (if c then x else y)
either_listing P true x y h k n = k refl
either_listing P false x y h k n = n h

refreshes-answered :
    {srv : Server} {es : List ListEvent} {l : Listing} {n : ℕ}
    → Listed srv es l
    → (n == l.current) ≡ true
    → n ≡ refreshes es
refreshes-answered {l = l} {n} r e = (==_iff _ _).0 e ∙ Listed-current r

Shows-later :
    {srv : Server} {es : List ListEvent} {l : Listing} (n : ℕ) (reply : Result Upstream)
    → Shows srv es l
    → Shows srv (answered n reply ∷ es) l
Shows-later n reply s = record { reply = s.reply; arrived = Memᴰ.tail s.arrived; shown = s.shown }

-- After any refreshes and answers in any order, a list that is not loading shows what the answer to
-- its latest effect gave, and answers to the effects before are ignored.
pub Listed-Shows :
    {srv : Server} {es : List ListEvent} {l : Listing}
    → Listed srv es l
    → l.loading ≡ false
    → Shows srv es l
unfolding opened list_step
Listed-Shows begin h = cc
Listed-Shows (then_on refreshed r) h = cc
Listed-Shows {srv} (then_on {es = es} {l = l} (answered n reply) r) h =
    either_listing (Shows srv (answered n reply ∷ es)) (n == l.current) _ l h
      (λ e. record {
        reply = reply;
        arrived = Memᴰ.head (ap (λ m. answered m reply) (sym (refreshes-answered r e)));
        shown = refl;
      })
      (λ q. Shows-later n reply (Listed-Shows r q))
