-- ===== src/Onboarding/Provider/View/Fields.antt =====
-- ProviderForm: its fields against the state and the validity of the form.
use mathlib.Core.List.{Memᴰ}
use leakshield.Base.{◌≡◌, refl, true, All, some, arith}
use leakshield.Js.Text.{Text, nonempty}
use leakshield.Js.Text.Trim.{trim-nonempty}
use leakshield.Onboarding.Provider.Form.{
  ProviderId, openai, anthropic, google, azure, FormState, set_field, is_form_valid,
}
use leakshield.Onboarding.Provider.View.{FieldView, provider_fields, provider_form}

-- A field that is required is not empty.
abbrev pub IsFilledIn : FieldView → Type 0
IsFilledIn x = x.required ≡ true → nonempty x.value ≡ true

-- Once a form is valid, each of its fields that is marked as required holds a text that is not empty.
pub provider_form-IsFilledIn :
    (p : ProviderId) (f : FormState)
    → is_form_valid (some p) f ≡ true
    → All IsFilledIn (provider_form p f).fields
unfolding provider_form provider_fields is_form_valid
provider_form-IsFilledIn openai f h =
    (λ _. trim-nonempty f.label (ground arith), (λ _. ground arith, (λ e. cc, (λ e. cc, tt))))
provider_form-IsFilledIn anthropic f h =
    (λ _. trim-nonempty f.label (ground arith), (λ _. ground arith, (λ e. cc, tt)))
provider_form-IsFilledIn google f h = (
  λ _. trim-nonempty f.label (ground arith),
  (λ _. ground arith, (λ _. trim-nonempty f.project_id (ground arith), tt)),
)
provider_form-IsFilledIn azure f h = (
  λ _. trim-nonempty f.label (ground arith),
  (
    λ _. ground arith,
    (
      λ _. trim-nonempty f.azure_endpoint (ground arith),
      (λ _. trim-nonempty f.azure_api_version (ground arith), tt),
    ),
  ),
)

-- Typing in the field puts the text into it, and the field is still there.
abbrev pub IsWired : ProviderId → FormState → FieldView → Type 0
IsWired p f x =
    (v : Text) → Memᴰ (record x { value = v }) (provider_form p (set_field x.key v f)).fields

-- Each field that the form of a provider shows is wired to its own entry of the state: what is typed
-- in it is what it shows next.
pub provider_form-IsWired :
    (p : ProviderId) (f : FormState) → All (IsWired p f) (provider_form p f).fields
unfolding provider_form provider_fields set_field
provider_form-IsWired openai f = (
  λ v. Memᴰ.head refl,
  (
    λ v. Memᴰ.tail (Memᴰ.head refl),
    (
      λ v. Memᴰ.tail (Memᴰ.tail (Memᴰ.head refl)),
      (λ v. Memᴰ.tail (Memᴰ.tail (Memᴰ.tail (Memᴰ.head refl))), tt),
    ),
  ),
)
provider_form-IsWired anthropic f = (
  λ v. Memᴰ.head refl,
  (λ v. Memᴰ.tail (Memᴰ.head refl), (λ v. Memᴰ.tail (Memᴰ.tail (Memᴰ.head refl)), tt)),
)
provider_form-IsWired google f = (
  λ v. Memᴰ.head refl,
  (λ v. Memᴰ.tail (Memᴰ.head refl), (λ v. Memᴰ.tail (Memᴰ.tail (Memᴰ.head refl)), tt)),
)
provider_form-IsWired azure f = (
  λ v. Memᴰ.head refl,
  (
    λ v. Memᴰ.tail (Memᴰ.head refl),
    (
      λ v. Memᴰ.tail (Memᴰ.tail (Memᴰ.head refl)),
      (λ v. Memᴰ.tail (Memᴰ.tail (Memᴰ.tail (Memᴰ.head refl))), tt),
    ),
  ),
)
