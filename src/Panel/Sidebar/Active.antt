-- ===== src/Panel/Sidebar/Active.antt =====
-- Where a link of the sidebar is the current one, and that no two links are.
use leakshield.Base.{
  both, suc, ◌≤◌, ◌≡◌, refl, ap, Bool, true, false, ◌&&◌, ◌||◌, Option, none, some, List, [], ◌∷◌,
  ◌++◌, length, filter, arith, not, ◌↔◌, Bool-cases, inl, inr, All,
}
use leakshield.Js.Text.{Text, lit, nonempty, starts_with}
use leakshield.Panel.Sidebar.{
  NavItem, LinkView, SidebarView, primary_nav, secondary_nav, is_active, is_within, nav_link,
  nav_links, sidebar,
}
use leakshield.Js.Text.Prefix.{starts_with-either}
use leakshield.Panel.Sidebar.Within.{IsAtEntry, is_active_iff, is_within-begins}

-- Neither of two paths lies below the other.
abbrev is_apart : Text → Text → Bool
is_apart a b =
    not (starts_with (a ++ lit "/") (b ++ lit "/") || starts_with (b ++ lit "/") (a ++ lit "/"))

abbrev is_apart_from_all : Text → List NavItem → Bool
is_apart_from_all href [] = true
is_apart_from_all href (i ∷ is) = is_apart href i.href && is_apart_from_all href is

abbrev are_apart : List NavItem → Bool
are_apart [] = true
are_apart (i ∷ is) = is_apart_from_all i.href is && are_apart is

not_both : (a b : Bool) → (a ≡ true → b ≡ true → false ≡ true) → a ≡ true → b ≡ false
not_both a true f h = cc (f h refl)
not_both a false f h = refl

apart-within :
    (path a b : Text) → is_apart a b ≡ true → is_within path a ≡ true → is_within path b ≡ false
apart-within path a b h = not_both (is_within path a) (is_within path b) (λ p q.
    let e =
      starts_with-either (path ++ lit "/") (a ++ lit "/") (b ++ lit "/") (is_within-begins path a p)
        (is_within-begins path b q) in
    rw e at h)

abbrev covered : Text → List NavItem → List NavItem
covered path = filter (λ item. is_within path item.href)

apart-covered :
    (path href : Text) (is : List NavItem)
    → is_apart_from_all href is ≡ true
    → is_within path href ≡ true
    → covered path is ≡ []
apart-covered path href [] h w = refl
apart-covered path href (i ∷ is) h w =
    let (p, q) = both (is_apart href i.href) (is_apart_from_all href is) h in
    rw (apart-within path href i.href p w) (apart-covered path href is q w)

apart-length :
    (path : Text) (is : List NavItem) → are_apart is ≡ true → length (covered path is) ≤ 1
apart-length path [] h = omega arith
apart-length path (i ∷ is) h =
    let (p, q) = both (is_apart_from_all i.href is) (are_apart is) h in
    elim (Bool-cases (is_within path i.href)) [
      | inl e ↦ rw (e, apart-covered path i.href is p e) (omega arith)
      | inr n ↦ rw n (apart-length path is q)
    ]

abbrev pub is_current : LinkView → Bool
is_current l = l.current

abbrev active_items : Option Text → List NavItem → List NavItem
active_items pathname = filter (λ item. is_active pathname item.href)

links-length :
    (t : Text → Text) (pathname : Option Text) (collapsed : Bool) (is : List NavItem)
    → length (filter is_current (nav_links t pathname collapsed is))
      ≡ length (active_items pathname is)
unfolding nav_links nav_link
links-length t pathname collapsed [] = refl
links-length t pathname collapsed (i ∷ is) = elim (Bool-cases (is_active pathname i.href)) [
  | inl e ↦ rw e (ap suc (links-length t pathname collapsed is))
  | inr n ↦ rw n (links-length t pathname collapsed is)
]

none-active : (is : List NavItem) → length (filter (λ _. false) is) ≤ 1
none-active [] = omega arith
none-active (i ∷ is) = none-active is

active_items-length :
    (pathname : Option Text) (is : List NavItem)
    → are_apart is ≡ true
    → length (active_items pathname is) ≤ 1
unfolding is_active
active_items-length none is h = none-active is
active_items-length (some []) is h = none-active is
active_items-length (some (c ∷ path)) is h = apart-length (c ∷ path) is h

-- Exactly the links at whose address the visitor is are marked as the current ones.
pub AreMarked : Option Text → List LinkView → Type 0
AreMarked pathname = All (λ l. (l.current ≡ true) ↔ IsAtEntry pathname l.href)

links-AreMarked :
    (t : Text → Text) (pathname : Option Text) (collapsed : Bool) (is : List NavItem)
    → All (λ i. nonempty i.href ≡ true) is
    → AreMarked pathname (nav_links t pathname collapsed is)
unfolding nav_links nav_link AreMarked
links-AreMarked t pathname collapsed [] h = tt
links-AreMarked t pathname collapsed (i ∷ is) h =
    (is_active_iff pathname i.href h.0, links-AreMarked t pathname collapsed is h.1)

abbrev all_items : List NavItem
unfolding primary_nav secondary_nav
all_items = primary_nav ++ secondary_nav

-- The links of the sidebar, in both groups.
unfoldable pub entries : SidebarView → List LinkView
entries v = v.primary ++ v.secondary

entries_lem :
    (t : Text → Text) (pathname : Option Text) (collapsed : Bool)
    → entries (sidebar t pathname collapsed) ≡ nav_links t pathname collapsed all_items
unfolding entries sidebar nav_links all_items primary_nav secondary_nav
entries_lem t pathname collapsed = refl

all_items-apart : are_apart all_items ≡ true
unfolding all_items primary_nav secondary_nav starts_with lit
all_items-apart = refl

all_items-nonempty : All (λ i. nonempty i.href ≡ true) all_items
unfolding all_items primary_nav secondary_nav lit
all_items-nonempty = (refl, (refl, (refl, (refl, (refl, (refl, (refl, (refl, (refl, tt)))))))))

-- For every address and translation, collapsed or not, the sidebar marks as current exactly the links
-- whose page is at the address or above it (the dashboard only at its own), and these are at most one.
pub sidebar-AreMarked :
    (t : Text → Text) (pathname : Option Text) (collapsed : Bool)
    → AreMarked pathname (entries (sidebar t pathname collapsed))
      × (length (filter is_current (entries (sidebar t pathname collapsed))) ≤ 1)
sidebar-AreMarked t pathname collapsed = rw entries_lem (
  links-AreMarked t pathname collapsed all_items all_items-nonempty,
  rw links-length (active_items-length pathname all_items all_items-apart),
)
