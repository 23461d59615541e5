-- ===== src/Panel/Modals/Ids.antt =====
-- The ids that the store gives to dialogs that are opened without one.
use leakshield.Base.{
  ℕ, ◌+◌, ◌<◌, ◌≤◌, ◌≡◌, ◌≢◌, refl, sym, ◌∙◌, Bool, Option, none, some, List, [], ◌∷◌, ◌++◌, All,
  init, filter, arith, Bool-cases, inl, inr, map,
}
use leakshield.Js.Text.{Text, lit, decimal}
use leakshield.Js.Text.Decimal.{decimal-inj}
use leakshield.Js.Json.{Fields}
use leakshield.Panel.Modals.{
  ModalEntry, ModalState, NewModal, close_all, close_modal, modal_id, no_modals, open_modal,
}
use leakshield.Panel.Modals.Closing.{by_id, close-open}

-- A call of the store; a dialog is opened without an id.
pub data ModalEvent : Type 0 where
  opened : (kind : Text) (props : Option Fields) → ModalEvent
  closed : Option Text → ModalEvent
  all_closed : ModalEvent

abbrev pub unnamed : Text → Option Fields → NewModal
unnamed kind props = record { id = none; kind = kind; props = props }

abbrev pub modal_step : ModalState → ModalEvent → ModalState
modal_step s (opened kind props) = (open_modal (unnamed kind props) s).1
modal_step s (closed id) = close_modal id s
modal_step s all_closed = close_all s

abbrev pub modal_run : List ModalEvent → ModalState → ModalState
modal_run [] s = s
modal_run (e ∷ es) s = modal_run es (modal_step s e)

-- No two items are the same.
abbrev pub AreDistinct : List Text → Type 0
AreDistinct [] = Unit
AreDistinct (x ∷ xs) = All (λ y. x ≢ y) xs × AreDistinct xs

abbrev modal_name : ℕ → Text
modal_name n = lit "modal-" ++ decimal n

-- The ids are printed numbers that rise, from above the first number up to the second.
abbrev IsRising : ℕ → List ModalEntry → ℕ → Type 0
IsRising low [] high = low ≤ high
IsRising low (e ∷ es) high = (k : ℕ) × (low < k) × (e.id ≡ modal_name k) × IsRising k es high

modal_name-inj : (m n : ℕ) → modal_name m ≡ modal_name n → m ≡ n
unfolding lit
modal_name-inj m n e = decimal-inj m n (let same : decimal m ≡ decimal n = cc in same)

IsRising-lower :
    (low low' : ℕ) (es : List ModalEntry) (high : ℕ)
    → low' ≤ low
    → IsRising low es high
    → IsRising low' es high
IsRising-lower low low' [] high h r = omega arith
IsRising-lower low low' (e ∷ es) high h (k, above, named, rest) = (k, omega arith, named, rest)

IsRising-snoc :
    (low : ℕ) (es : List ModalEntry) (high : ℕ) (x : ModalEntry)
    → x.id ≡ modal_name (high + 1)
    → IsRising low es high
    → IsRising low (es ++ x ∷ []) (high + 1)
IsRising-snoc low [] high x named r = (high + 1, omega arith, named, omega arith)
IsRising-snoc low (e ∷ es) high x named (k, above, same, rest) =
    (k, above, same, IsRising-snoc k es high x named rest)

IsRising-le : (low : ℕ) (es : List ModalEntry) (high : ℕ) → IsRising low es high → low ≤ high
IsRising-le low [] high r = r
IsRising-le low (e ∷ es) high (k, above, named, rest) =
    let h = IsRising-le k es high rest in omega arith

IsRising-init :
    (low : ℕ) (es : List ModalEntry) (high : ℕ) → IsRising low es high → IsRising low (init es) high
IsRising-init low [] high r = r
IsRising-init low (e ∷ []) high (k, above, named, rest) = omega arith
IsRising-init low (e ∷ f ∷ es) high (k, above, named, rest) =
    (k, above, named, IsRising-init k (f ∷ es) high rest)

IsRising-filter :
    (keep : ModalEntry → Bool) (low : ℕ) (es : List ModalEntry) (high : ℕ)
    → IsRising low es high
    → IsRising low (filter keep es) high
IsRising-filter keep low [] high r = r
IsRising-filter keep low (e ∷ es) high (k, above, named, rest) =
    let later = IsRising-filter keep k es high rest in
    elim (Bool-cases (keep e)) [
      | inl y ↦ rw y (k, above, named, later)
      | inr n ↦ rw n (IsRising-lower k low (filter keep es) high (omega arith) later)
    ]

-- Every id of such a list differs from one with a number that is not above the first.
IsRising-fresh :
    (n low : ℕ) (es : List ModalEntry) (high : ℕ)
    → n ≤ low
    → IsRising low es high
    → All (λ y. modal_name n ≢ y) (map (λ e. e.id) es)
IsRising-fresh n low [] high h r = tt
IsRising-fresh n low (e ∷ es) high h (k, above, named, rest) = (
  λ same. (let equal = modal_name-inj n k (same ∙ named) in absurd (omega arith)),
  IsRising-fresh n k es high (omega arith) rest,
)

IsRising-AreDistinct :
    (low : ℕ) (es : List ModalEntry) (high : ℕ)
    → IsRising low es high
    → AreDistinct (map (λ e. e.id) es)
IsRising-AreDistinct low [] high r = tt
IsRising-AreDistinct low (e ∷ es) high (k, above, named, rest) =
    (rw named (IsRising-fresh k k es high (omega arith) rest), IsRising-AreDistinct k es high rest)

-- The next id differs from every one of the list.
IsRising-next :
    (low : ℕ) (es : List ModalEntry) (high : ℕ)
    → IsRising low es high
    → All (λ e. e.id ≢ modal_name (high + 1)) es
IsRising-next low [] high r = tt
IsRising-next low (e ∷ es) high (k, above, named, rest) =
    let bound = IsRising-le k es high rest in
    (
      λ same. (let equal = modal_name-inj k (high + 1) (sym named ∙ same) in absurd (omega arith)),
      IsRising-next k es high rest,
    )

abbrev IsNumbered : ModalState → Type 0
IsNumbered s = IsRising 0 s.stack s.next_id

open_modal-IsNumbered :
    (kind : Text) (props : Option Fields) (s : ModalState)
    → IsNumbered s
    → IsNumbered (open_modal (unnamed kind props) s).1
unfolding open_modal modal_id
open_modal-IsNumbered kind props s r = IsRising-snoc 0 s.stack s.next_id _ refl r

close_modal-IsNumbered :
    (id : Option Text) (s : ModalState) → IsNumbered s → IsNumbered (close_modal id s)
unfolding close_modal
close_modal-IsNumbered none s r = IsRising-init 0 s.stack s.next_id r
close_modal-IsNumbered (some []) s r = IsRising-init 0 s.stack s.next_id r
close_modal-IsNumbered (some (c ∷ id)) s r = IsRising-filter _ 0 s.stack s.next_id r

modal_run-IsNumbered :
    (es : List ModalEvent) (s : ModalState) → IsNumbered s → IsNumbered (modal_run es s)
unfolding close_all
modal_run-IsNumbered [] s r = r
modal_run-IsNumbered (opened kind props ∷ es) s r =
    modal_run-IsNumbered es _ (open_modal-IsNumbered kind props s r)
modal_run-IsNumbered (closed id ∷ es) s r =
    modal_run-IsNumbered es _ (close_modal-IsNumbered id s r)
modal_run-IsNumbered (all_closed ∷ es) s r = modal_run-IsNumbered es _ (omega arith)

close-unnamed :
    (kind : Text) (props : Option Fields) (s : ModalState)
    → IsNumbered s
    → let m = unnamed kind props in
      (close_modal (some (modal_id m s)) (open_modal m s).1).stack ≡ s.stack
unfolding modal_id
close-unnamed kind props s r =
    close-open (unnamed kind props) s _ (by_id (IsRising-next 0 s.stack s.next_id r))

-- While no caller names an id: after any calls of the store the ids of the open dialogs are distinct,
-- however many have been closed before, and to close the next dialog by the id that it is given takes
-- that dialog away and no other.
pub modal_run-AreDistinct :
    (es : List ModalEvent) (kind : Text) (props : Option Fields)
    → let s = modal_run es no_modals in
      let m = unnamed kind props in
      AreDistinct (map (λ e. e.id) s.stack)
      × ((close_modal (some (modal_id m s)) (open_modal m s).1).stack ≡ s.stack)
modal_run-AreDistinct es kind props =
    let r = modal_run-IsNumbered es no_modals (omega arith) in
    (IsRising-AreDistinct 0 _ _ r, close-unnamed kind props _ r)
