-- ===== src/Panel/Modals.antt =====
-- panel/lib/stores/modal-store.ts: the stack of open dialogs.
pub mod Closing
pub mod Ids
use leakshield.Base.{
  ℕ, ◌+◌, not, Option, none, some, List, [], ◌∷◌, ◌++◌, init, filter, if◌then◌else◌,
}
use leakshield.Js.Text.{Text, lit, nonempty, text_eq, decimal}
use leakshield.Js.Json.{Fields}

pub record ModalEntry : Type 0 where
  pub id : Text
  pub kind : Text
  pub props : Option Fields

-- What `open` is given: the entry, whose id may be missing.
pub record NewModal : Type 0 where
  pub id : Option Text
  pub kind : Text
  pub props : Option Fields

-- The store, with the counter `nextId` beside it.
pub record ModalState : Type 0 where
  pub stack : List ModalEntry
  pub next_id : ℕ

abbrev pub no_modals : ModalState
no_modals = record { stack = []; next_id = 0 }

-- `entry.id ?? …`
unfoldable pub modal_id : NewModal → ModalState → Text
modal_id m s = elim m.id [ none ↦ lit "modal-" ++ decimal (s.next_id + 1) | some id ↦ id ]

abbrev counted : Option Text → ℕ → ℕ
counted none n = n + 1
counted (some _) n = n

-- `open`: the id that it returns, and the new state.
unfoldable pub open_modal : NewModal → ModalState → Text × ModalState
unfolding modal_id
open_modal m s =
    let id = modal_id m s in
    (
      id,
      record {
        stack = s.stack ++ (record { id = id; kind = m.kind; props = m.props }) ∷ [];
        next_id = counted m.id s.next_id;
      },
    )

-- `close`: without an id, or with an empty one, the last dialog goes.
unfoldable pub close_modal : Option Text → ModalState → ModalState
close_modal none s = record s { stack = init s.stack }
close_modal (some id) s =
    if nonempty id
    then record s { stack = filter (λ m. not (text_eq m.id id)) s.stack }
    else record s { stack = init s.stack }

unfoldable pub close_all : ModalState → ModalState
close_all s = record s { stack = [] }
