-- ===== src/Logs/Relay/Query.antt =====
-- Which parameters reach the gateway.
use leakshield.Base.{
  ◌≡◌, refl, ap, false, not, List, [], ◌∷◌, filter, if◌then◌else◌, Bool-cases, inl, inr,
}
use leakshield.Js.Text.{Text, text_eq}
use leakshield.Js.Text.Prefix.{text_eq-eq, text_eq_refl}
use leakshield.Logs.Relay.{Params, set_param, forward_onto, forward_params}

-- `searchParams.getAll(k)`
abbrev pub values_of : Text → Params → List Text
values_of k [] = []
values_of k (p ∷ ps) = let rest = values_of k ps in if text_eq p.0 k then p.1 ∷ rest else rest

-- The last item alone, or the items given if there is none.
abbrev pub last_or : List Text → List Text → List Text
last_or [] before = before
last_or (v ∷ vs) before = last_or vs (v ∷ [])

drop_param-own : (k : Text) (ps : Params) → values_of k (filter (λ p. not (text_eq p.0 k)) ps) ≡ []
drop_param-own k [] = refl
drop_param-own k (p ∷ ps) = elim (Bool-cases (text_eq p.0 k)) [
  | inl e ↦ rw e (drop_param-own k ps)
  | inr n ↦ rw (n, n) (drop_param-own k ps)
]

drop_param-other :
    (k j : Text) (ps : Params)
    → text_eq j k ≡ false
    → values_of k (filter (λ p. not (text_eq p.0 j)) ps) ≡ values_of k ps
drop_param-other k j [] n = refl
drop_param-other k j (p ∷ ps) n = elim (Bool-cases (text_eq p.0 j)) [
  | inl e ↦ rw (e, text_eq-eq p.0 j e, n) (drop_param-other k j ps n)
  | inr m ↦ rw m (ap (λ vs. if text_eq p.0 k then p.1 ∷ vs else vs) (drop_param-other k j ps n))
]

set_param-own : (k v : Text) (ps : Params) → values_of k (set_param k v ps) ≡ v ∷ []
unfolding set_param
set_param-own k v [] = rw (text_eq_refl k) refl
set_param-own k v (p ∷ ps) = elim (Bool-cases (text_eq p.0 k)) [
  | inl e ↦ rw (e, text_eq_refl k, drop_param-own k ps) refl
  | inr n ↦ rw (n, n) (set_param-own k v ps)
]

set_param-other :
    (k j v : Text) (ps : Params)
    → text_eq j k ≡ false
    → values_of k (set_param j v ps) ≡ values_of k ps
unfolding set_param
set_param-other k j v [] n = rw n refl
set_param-other k j v (p ∷ ps) n = elim (Bool-cases (text_eq p.0 j)) [
  | inl e ↦ rw (e, n, text_eq-eq p.0 j e, n) (drop_param-other k j ps n)
  | inr m ↦ rw m (ap (λ vs. if text_eq p.0 k then p.1 ∷ vs else vs) (set_param-other k j v ps n))
]

forward_onto-values :
    (k : Text) (set ps : Params)
    → values_of k (forward_onto set ps) ≡ last_or (values_of k ps) (values_of k set)
unfolding forward_onto
forward_onto-values k set [] = refl
forward_onto-values k set (p ∷ ps) = elim (Bool-cases (text_eq p.0 k)) [
  | inl e ↦
      rw (e, forward_onto-values k (set_param p.0 p.1 set) ps, text_eq-eq p.0 k e, set_param-own)
        refl
  | inr n ↦
      rw (n, forward_onto-values k (set_param p.0 p.1 set) ps, set_param-other k p.0 p.1 set n) refl
]

-- Of every key of a request's query, the gateway is sent the last value alone, and no key that the query
-- does not have.
pub forward_params-values :
    (k : Text) (ps : Params) → values_of k (forward_params ps) ≡ last_or (values_of k ps) []
unfolding forward_params
forward_params-values k ps = forward_onto-values k [] ps
