-- ===== src/Panel/Topbar.antt =====
-- panel/components/layout/topbar.tsx and tenant-switcher.tsx beside it, and panel/app/(app)/layout.tsx,
-- which shows them to a signed-in visitor.
use leakshield.Base.{String, Bool, false, Option, none, some, List, [], ◌∷◌, map, take, ◌++◌}
use leakshield.Js.Text.{Text, lit, text_eq}
use leakshield.Env.{coalesce}

-- `session.user`, in the fields that the bar shows.
pub record Visitor : Type 0 where
  pub name : Option Text
  pub email : Option Text
  pub image : Option Text

-- `v?.slice(0, 2).toUpperCase()`
abbrev two_letters : (upper : Text → Text) → Option Text → Option Text
two_letters upper none = none
two_letters upper (some v) = some (upper (take 2 v))

abbrev name_of : Option Visitor → Option Text
name_of none = none
name_of (some v) = v.name

abbrev email_of : Option Visitor → Option Text
email_of none = none
email_of (some v) = v.email

abbrev image_of : Option Visitor → Option Text
image_of none = none
image_of (some v) = v.image

unfoldable pub initials : (upper : Text → Text) → Option Visitor → Text
initials upper v =
    coalesce (two_letters upper (name_of v)) (coalesce (two_letters upper (email_of v)) (lit "LS"))

-- The user menu: the avatar, its label, and where its two entries lead.
pub record TopbarView : Type 0 where
  pub image : Option Text
  pub initials : Text
  pub title : Text
  pub email : Option Text
  pub profile : String
  pub after_sign_out : String

unfoldable pub topbar : (upper : Text → Text) → Option Visitor → TopbarView
topbar upper v = record {
  image = image_of v;
  initials = initials upper v;
  title = coalesce (name_of v) (lit "Signed in");
  email = email_of v;
  profile = "/settings/profile";
  after_sign_out = "/sign-in";
}

-- An entry of the fixed list of tenants; none has an avatar.
pub record TenantItem : Type 0 where
  pub id : Text
  pub name : Text
  pub slug : Text

abbrev pub mock_tenants : List TenantItem
mock_tenants =
    record { id = lit "1"; name = lit "Acme Inc"; slug = lit "acme" }
    ∷ record { id = lit "2"; name = lit "Hesper Labs"; slug = lit "hesper" }
    ∷ []

pub record Switcher : Type 0 where
  pub is_open : Bool
  pub tenant : TenantItem

abbrev first_tenant : List TenantItem → TenantItem
first_tenant [] = record { id = lit "0"; name = lit "Default"; slug = lit "default" }
first_tenant (t ∷ ts) = t

unfoldable pub initial_switcher : Switcher
initial_switcher = record { is_open = false; tenant = first_tenant mock_tenants }

pub data SwitcherEvent : Type 0 where
  open_changed : Bool → SwitcherEvent
  tenant_selected : TenantItem → SwitcherEvent
  create_selected : SwitcherEvent

unfoldable pub switcher_step : SwitcherEvent → Switcher → Switcher
switcher_step (open_changed b) s = record s { is_open = b }
switcher_step (tenant_selected t) s = record { is_open = false; tenant = t }
switcher_step create_selected s = record s { is_open = false }

pub record TenantRow : Type 0 where
  pub value : Text
  pub initials : Text
  pub name : Text
  pub ticked : Bool

pub record SwitcherView : Type 0 where
  pub expanded : Bool
  pub initials : Text
  pub name : Text
  pub rows : List TenantRow

unfoldable pub tenant_row : (upper : Text → Text) → Switcher → TenantItem → TenantRow
tenant_row upper s t = record {
  value = t.name ++ lit " " ++ t.slug;
  initials = upper (take 2 t.name);
  name = t.name;
  ticked = text_eq s.tenant.id t.id;
}

unfoldable pub switcher_view : (upper : Text → Text) → Switcher → SwitcherView
unfolding tenant_row
switcher_view upper s = record {
  expanded = s.is_open;
  initials = upper (take 2 s.tenant.name);
  name = s.tenant.name;
  rows = map (tenant_row upper s) mock_tenants;
}

-- `AuthenticatedLayout`: the path of the redirect, or nothing, and the page is shown.
unfoldable pub authenticated_layout : Option Visitor → Option String
authenticated_layout none = some "/sign-in"
authenticated_layout (some v) = none
