-- ===== src/Panel/Modals/Closing.antt =====
-- Dialogs that open and close inside one another.
use leakshield.Base.{
  ◌≡◌, refl, ap, ◌∙◌, ◌≢◌, true, not, Option, none, some, List, [], ◌∷◌, ◌++◌, All, init, filter,
  if_either, Bool-cases, inl, inr,
}
use leakshield.Js.Text.{Text, nonempty, text_eq}
use leakshield.Js.Text.Prefix.{text_eq_refl, text_eq-eq}
use leakshield.Panel.Modals.{ModalEntry, ModalState, NewModal, modal_id, open_modal, close_modal}

-- How a dialog is closed that was opened in the state: as the last one, or by the id that `open` gave,
-- where no dialog below it has that id.
pub data Closes (m : NewModal) (s : ModalState) : Option Text → Type 0 where
  last : Closes m s none
  by_id : All (λ e. e.id ≢ modal_id m s) s.stack → Closes m s (some (modal_id m s))

-- A use of the store from one state to another, in which each dialog that opens is closed, after the
-- dialogs that have been opened over it.
pub data Nested : ModalState → ModalState → Type 0 where
  idle : {s : ModalState} → Nested s s
  dialog :
      (m : NewModal) {s t u : ModalState} {c : Option Text}
      → Nested (open_modal m s).1 t
      → Closes m s c
      → Nested (close_modal c t) u
      → Nested s u

init-append {ℓ} : {A : Type ℓ} (xs : List A) (x : A) → init (xs ++ x ∷ []) ≡ xs
init-append [] x = refl
init-append (y ∷ []) x = refl
init-append (y ∷ z ∷ xs) x = ap (λ t. y ∷ t) (init-append (z ∷ xs) x)

text_eq-fresh : (a b : Text) → a ≢ b → not (text_eq a b) ≡ true
text_eq-fresh a b n = elim (Bool-cases (text_eq a b)) [
  | inl e ↦ elim (n (text_eq-eq a b e)) [ ]
  | inr f ↦ rw f refl
]

abbrev others : Text → List ModalEntry → List ModalEntry
others id = filter (λ m. not (text_eq m.id id))

others-append :
    (id : Text) (xs : List ModalEntry) (x : ModalEntry)
    → All (λ e. e.id ≢ id) xs
    → x.id ≡ id
    → others id (xs ++ x ∷ []) ≡ xs
others-append id [] x h e = rw (e, text_eq_refl id) refl
others-append id (y ∷ xs) x h e =
    rw (text_eq-fresh y.id id h.0) (ap (λ t. y ∷ t) (others-append id xs x h.1 e))

pub close-open :
    (m : NewModal) (s : ModalState) (c : Option Text)
    → Closes m s c
    → (close_modal c (open_modal m s).1).stack ≡ s.stack
unfolding open_modal close_modal
close-open m s c last = init-append s.stack _
close-open m s c (by_id h) =
    if_either {A = ModalState} (λ t. t.stack ≡ s.stack) (nonempty (modal_id m s)) _ _
      (λ e. others-append (modal_id m s) s.stack _ h refl) (λ n. init-append s.stack _)

close-stack :
    (c : Option Text) (s t : ModalState)
    → s.stack ≡ t.stack
    → (close_modal c s).stack ≡ (close_modal c t).stack
unfolding close_modal
close-stack none s t e = ap init e
close-stack (some []) s t e = ap init e
close-stack (some (d ∷ id)) s t e = ap (others (d ∷ id)) e

-- Dialogs that are opened and closed inside one another, each as the last one or by the id that it was
-- given and that no dialog below it has, leave the stack as it was.
pub Nested-stack : (s t : ModalState) → Nested s t → t.stack ≡ s.stack
Nested-stack s t idle = refl
Nested-stack s t (dialog m {t = inner} {c = c} opened closes rest) =
    Nested-stack (close_modal c inner) t rest
    ∙ close-stack c inner (open_modal m s).1 (Nested-stack (open_modal m s).1 inner opened)
    ∙ close-open m s c closes
