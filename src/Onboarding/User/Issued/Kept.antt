-- ===== src/Onboarding/User/Issued/Kept.antt =====
-- Step3UserClient: the key, the copy and the route while events arrive.
use mathlib.Core.List.{Memᴰ}
use leakshield.Base.{
  String, ◌≡◌, refl, Bool, true, false, not, ◌||◌, Option, none, some, List, [], ◌∷◌, ◌++◌, arith,
  if_either, if◌then◌else◌,
}
use leakshield.Base.Result.{Result, ok, throw, ◌>>=◌}
use leakshield.Js.Text.{Text, lit}
use leakshield.Js.Json.{Json}
use leakshield.Js.Http.{Upstream}
use leakshield.Onboarding.User.{
  Me, IssuedKey, KeyScreen, KeyEvent, KeyJob, Reaction, apply_reaction, answer_jobs,
  continue_clicked, copy_ended, complain, creating, creation_reply, generate_clicked, generate_for,
  handle_add_teammate, handle_generate_mine, is_busy, issue, issue_key_for, issue_reply, issuing,
  key_path, key_step, mounted, my_id, react_forms, react_pane, react_shown, replied, reveal,
  start_issue, submitted, tab_picked, teammate_valid, typed,
}
use leakshield.Onboarding.User.Issued.{Reached, Revealed, CopyEnded, begin, then_on}
use leakshield.Onboarding.User.Issued.Answers.{creation_reply-unrevealed, issue_reply-Revealed}

abbrev IssuedFrom : List KeyEvent → Option IssuedKey → Type 0
IssuedFrom es none = Unit
IssuedFrom es (some key) = Revealed es key

abbrev CopiedFrom : List KeyEvent → Option IssuedKey → Bool → Type 0
CopiedFrom es issued false = Unit
CopiedFrom es issued true = CopyEnded es × ((key : IssuedKey) × (issued ≡ some key))

abbrev RouteFrom : Bool → Option String → Type 0
RouteFrom copied none = Unit
RouteFrom copied (some path) = copied ≡ true

record Good (es : List KeyEvent) (s : KeyScreen) : Type 0 where
  issued : IssuedFrom es s.issued
  copied : CopiedFrom es s.issued s.copied
  route : RouteFrom s.copied s.route

later-IssuedFrom :
    (e : KeyEvent) (es : List KeyEvent) (i : Option IssuedKey)
    → IssuedFrom es i
    → IssuedFrom (e ∷ es) i
later-IssuedFrom e es none h = tt
later-IssuedFrom e es (some key) h = record {
  res = h.res;
  arrived = Memᴰ.tail h.arrived;
  success = h.success;
  listed = h.listed;
  set = h.set;
}

later-CopiedFrom :
    (e : KeyEvent) (es : List KeyEvent) (i : Option IssuedKey) (c : Bool)
    → CopiedFrom es i c
    → CopiedFrom (e ∷ es) i c
later-CopiedFrom e es i false h = tt
later-CopiedFrom e es i true ((wrote, m), k) = ((wrote, Memᴰ.tail m), k)

later-Good : {es : List KeyEvent} {s : KeyScreen} (e : KeyEvent) → Good es s → Good (e ∷ es) s
later-Good {es} {s} e g = record {
  issued = later-IssuedFrom e es s.issued g.issued;
  copied = later-CopiedFrom e es s.issued s.copied g.copied;
  route = g.route;
}

reissued-CopiedFrom :
    (es : List KeyEvent) (i : Option IssuedKey) (c : Bool) (key : IssuedKey)
    → CopiedFrom es i c
    → CopiedFrom es (some key) c
reissued-CopiedFrom es i false key h = tt
reissued-CopiedFrom es i true key h = (h.0, (key, refl))

-- A click that has been copied keeps the route that was there.
copied-RouteFrom : (c : Bool) (r : Option String) → RouteFrom c r → RouteFrom true r
copied-RouteFrom c none h = tt
copied-RouteFrom c (some path) h = refl

start_issue-Good :
    {es : List KeyEvent} (p : Result Text) (name : Text) (s : KeyScreen)
    → Good es s
    → Good es (start_issue p name s)
start_issue-Good (throw e) name s g = record {
  issued = g.issued;
  copied = g.copied;
  route = g.route;
}
start_issue-Good (ok path) name s g = record {
  issued = g.issued;
  copied = g.copied;
  route = g.route;
}

issue_key_for-Good :
    {es : List KeyEvent} (user_id : Json) (name : Text) (s : KeyScreen)
    → Good es s
    → Good es (issue_key_for user_id name s)
unfolding issue_key_for
issue_key_for-Good user_id name s g =
    start_issue-Good (key_path user_id) name _
      (record { issued = g.issued; copied = g.copied; route = g.route })

generate_for-Good :
    {es : List KeyEvent} (user_id : Option Json) (s : KeyScreen)
    → Good es s
    → Good es (generate_for user_id s)
generate_for-Good none s g = record { issued = g.issued; copied = g.copied; route = g.route }
generate_for-Good (some user_id) s g = issue_key_for-Good user_id (lit "Personal admin key") s g

-- Whatever an answer leads to, only a key from a good answer may be revealed.
apply_reaction-Good :
    {es : List KeyEvent} (owner : Text) (r : Result Reaction) (s : KeyScreen)
    → ((key : IssuedKey) → r ≡ ok (reveal key) → Revealed es key)
    → Good es s
    → Good es (apply_reaction owner r s)
apply_reaction-Good owner (throw e) s h g = record {
  issued = g.issued;
  copied = g.copied;
  route = g.route;
}
apply_reaction-Good owner (ok (issue user_id)) s h g =
    issue_key_for-Good user_id (owner ++ lit "'s key") s g
apply_reaction-Good {es} owner (ok (reveal key)) s h g = record {
  issued = h key refl;
  copied = reissued-CopiedFrom es s.issued s.copied key g.copied;
  route = g.route;
}
apply_reaction-Good owner (ok (complain e d)) s h g = record {
  issued = g.issued;
  copied = g.copied;
  route = g.route;
}

answer_jobs-Good :
    {es : List KeyEvent} (js : List KeyJob) (reply : Result Upstream) (s : KeyScreen)
    → Good es s
    → Good (replied reply ∷ es) (answer_jobs js reply s)
unfolding answer_jobs
answer_jobs-Good [] reply s g = later-Good (replied reply) g
answer_jobs-Good (creating body owner ∷ rest) reply s g =
    let h = later-Good (replied reply) g in
    apply_reaction-Good owner (reply >>= creation_reply) _
      (λ key e. absurd (creation_reply-unrevealed reply key e))
      (record { issued = h.issued; copied = h.copied; route = h.route })
answer_jobs-Good {es} (issuing path body ∷ rest) reply s g =
    let h = later-Good (replied reply) g in
    apply_reaction-Good [] (reply >>= issue_reply) _ (issue_reply-Revealed es reply)
      (record { issued = h.issued; copied = h.copied; route = h.route })

react_forms-Good :
    {es : List KeyEvent} (lower : Text → Text) (me : Option Me) (e : KeyEvent) (s : KeyScreen)
    → Good es s
    → Good (e ∷ es) (react_forms lower me e s)
unfolding react_forms handle_generate_mine handle_add_teammate
react_forms-Good lower me (tab_picked t) s g =
    let h = later-Good (tab_picked t) g in
    record { issued = h.issued; copied = h.copied; route = h.route }
react_forms-Good lower me (typed k v) s g =
    let h = later-Good (typed k v) g in
    record { issued = h.issued; copied = h.copied; route = h.route }
react_forms-Good {es} lower me generate_clicked s g =
    if_either (Good (generate_clicked ∷ es)) (is_busy s) s _ (λ _. later-Good generate_clicked g)
      (λ _. generate_for-Good (my_id me) s (later-Good generate_clicked g))
react_forms-Good {es} lower me submitted s g =
    let h = later-Good submitted g in
    if_either (Good (submitted ∷ es)) (is_busy s || not (teammate_valid s.teammate)) s _ (λ _. h)
      (λ _.
        if_either (Good (submitted ∷ es)) (teammate_valid s.teammate) _ s
          (λ _. record { issued = h.issued; copied = h.copied; route = h.route }) (λ _. h))
react_forms-Good lower me (replied reply) s g = answer_jobs-Good s.in_flight reply s g
react_forms-Good lower me (copy_ended wrote) s g = later-Good (copy_ended wrote) g
react_forms-Good lower me continue_clicked s g = later-Good continue_clicked g

continue-Good :
    {es : List KeyEvent} (s : KeyScreen)
    → Good es s
    → Good es (if not s.copied then s else record s { route = some "/onboarding/4" })
continue-Good {es} s g =
    if_either (Good es) (not s.copied) s _ (λ _. g)
      (λ c. record { issued = g.issued; copied = g.copied; route = ground arith })

copied-Good :
    {es : List KeyEvent} (key : IssuedKey) (wrote : Bool) (s : KeyScreen)
    → s.issued ≡ some key
    → Good es s
    → Good (copy_ended wrote ∷ es) (record s { copied = true })
copied-Good {es} key wrote s i g =
    let h = later-Good (copy_ended wrote) g in
    record {
      issued = h.issued;
      copied = ((wrote, Memᴰ.head refl), (key, i));
      route = copied-RouteFrom s.copied s.route g.route;
    }

react_pane-Good :
    {es : List KeyEvent} (key : IssuedKey) (e : KeyEvent) (s : KeyScreen)
    → s.issued ≡ some key
    → Good es s
    → Good (e ∷ es) (react_pane e s)
unfolding react_pane
react_pane-Good key (replied reply) s i g = answer_jobs-Good s.in_flight reply s g
react_pane-Good key (copy_ended true) s i g = copied-Good key true s i g
react_pane-Good key (copy_ended false) s i g = copied-Good key false s i g
react_pane-Good key continue_clicked s i g = continue-Good s (later-Good continue_clicked g)
react_pane-Good key (tab_picked t) s i g = later-Good (tab_picked t) g
react_pane-Good key (typed k v) s i g = later-Good (typed k v) g
react_pane-Good key generate_clicked s i g = later-Good generate_clicked g
react_pane-Good key submitted s i g = later-Good submitted g

react_shown-Good :
    {es : List KeyEvent} (lower : Text → Text) (me : Option Me) (e : KeyEvent)
    (i : Option IssuedKey) (s : KeyScreen)
    → s.issued ≡ i
    → Good es s
    → Good (e ∷ es) (react_shown lower me e i s)
react_shown-Good lower me e none s i g = react_forms-Good lower me e s g
react_shown-Good lower me e (some key) s i g = react_pane-Good key e s i g

Reached-Good :
    {lower : Text → Text} {me : Option Me} {es : List KeyEvent} {s : KeyScreen}
    → Reached lower me es s
    → Good es s
unfolding mounted key_step
Reached-Good begin = record { issued = tt; copied = tt; route = tt }
Reached-Good {lower} {me} (then_on {es = es} {s = s} e r) =
    if_either (Good (e ∷ es)) s.crashed s _ (λ _. later-Good e (Reached-Good r))
      (λ _. react_shown-Good lower me e s.issued s refl (Reached-Good r))

issued_of :
    (es : List KeyEvent) (i : Option IssuedKey) (key : IssuedKey)
    → IssuedFrom es i
    → i ≡ some key
    → Revealed es key
issued_of es none key h e = cc
issued_of es (some k) key h e = let same : k ≡ key = cc in rw (← same) h

-- After any events, a key that the pane reveals came, with a truthy plaintext, in an answer with a
-- status from 200 to 299.
pub Reached-Revealed :
    {lower : Text → Text} {me : Option Me} {es : List KeyEvent} {s : KeyScreen}
    → Reached lower me es s
    → (key : IssuedKey) → s.issued ≡ some key
    → Revealed es key
Reached-Revealed {es = es} {s = s} r key e = issued_of es s.issued key (Reached-Good r).issued e

copied_of :
    (es : List KeyEvent) (i : Option IssuedKey) (c : Bool) (r : Option String) (path : String)
    → CopiedFrom es i c
    → RouteFrom c r
    → r ≡ some path
    → CopyEnded es × ((key : IssuedKey) × (i ≡ some key))
copied_of es i true r path h k e = h
copied_of es i false none path h k e = cc
copied_of es i false (some p) path h k e = cc

-- After any events, the screen leads on only if a key has been issued and the clipboard has answered
-- a click on Copy, whether it took the key or refused.
pub Reached-copied :
    {lower : Text → Text} {me : Option Me} {es : List KeyEvent} {s : KeyScreen}
    → Reached lower me es s
    → (path : String) → s.route ≡ some path
    → CopyEnded es × ((key : IssuedKey) × (s.issued ≡ some key))
Reached-copied {es = es} {s = s} r path e =
    let g = Reached-Good r in copied_of es s.issued s.copied s.route path g.copied g.route e
