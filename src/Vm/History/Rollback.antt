-- ===== src/Vm/History/Rollback.antt =====
-- crates/multivm/src/versions/vm_latest/old_vm/history_recorder.rs: a rollback undoes what was
-- recorded from its timestamp on, for every component whose actions can be undone.
use eravm_airbender_verifier.Common.{
  ℕ, ◌≡◌, ◌≤◌, ◌<◌, refl, sym, ap, ◌∙◌, false, List, [], ◌∷◌, leb, ok, assert, >>=-eq-ok,
  ok-injective, le→leb, Bool-cases, inl, inr, arith, timestamps_not_monotonic,
}
use eravm_airbender_verifier.Vm.History.{
  WithHistory, history_enabled, HistoryRecorder, normalize_timestamp, last_recorded_timestamp,
  push_history, apply_historic_record, undo_history, rollback_to_timestamp,
}

-- A component with an equality of states that its actions respect, and that the undoing action of an
-- action restores.
pub record Reversible (component : WithHistory) : Type 1 where
  pub Same : component.State → component.State → Type 0
  pub Same_refl : (a : component.State) → Same a a
  pub Same_trans : (a b c : component.State) → Same a b → Same b c → Same a c
  pub apply-undo :
      (a a' b : component.State) (item undo : component.HistoryRecord)
      (value : component.ReturnValue)
      → component.apply_record a item ≡ ok ((undo, value), a')
      → Same b a'
      → (last : (component.HistoryRecord × component.ReturnValue) × component.State)
        × (component.apply_record b undo ≡ ok last)
        × Same last.1 a

-- A recorder after any number of actions, none of them before a timestamp.
pub data Records (component : WithHistory) (delta timestamp : ℕ) (start : HistoryRecorder component)
    : HistoryRecorder component → Type 0 where
  no_action : Records component delta timestamp start start
  one_action :
      (middle last : HistoryRecorder component) (item : component.HistoryRecord)
      (value : component.ReturnValue) (time : ℕ)
      → Records component delta timestamp start middle
      → timestamp ≤ normalize_timestamp delta time
      → apply_historic_record component history_enabled delta middle item time ≡ ok (value, last)
      → Records component delta timestamp start last

-- The history is empty, or its last item is before the timestamp.
abbrev pub EndsBefore : (component : WithHistory) → ℕ → List (ℕ × component.HistoryRecord) → Type 0
EndsBefore component timestamp [] = Unit
EndsBefore component timestamp ((time, item) ∷ history) = time < timestamp

gt→leb : (a b : ℕ) → b < a → leb a b ≡ false
gt→leb a b h = ground arith

module _ (component : WithHistory) (laws : Reversible component) (delta timestamp : ℕ) where
  -- From a state that is the same, undoing what was recorded leads to undoing what was there before.
  unfoldable pub Undoes : HistoryRecorder component → HistoryRecorder component → Type 0
  Undoes start last =
      (b : component.State)
      → laws.Same b last.inner
      → (c : component.State) × (undo_history component timestamp b last.history
          ≡ undo_history component timestamp c start.history)
        × laws.Same c start.inner

  push_history-ok :
      (time : ℕ) (undo : component.HistoryRecord) (before last : HistoryRecorder component)
      → push_history component history_enabled delta time undo before ≡ ok last
      → last ≡ record {
        inner = before.inner;
        history = (normalize_timestamp delta time, undo) ∷ before.history;
      }
  unfolding push_history
  push_history-ok time undo before last e =
      let (_, _, same) =
        >>=-eq-ok
          (assert
            (leb (last_recorded_timestamp component before.history)
              (normalize_timestamp delta time))
            timestamps_not_monotonic)
          _ e in
      sym (ok-injective same)

  undo_one :
      (start middle : HistoryRecorder component) (inner : component.State)
      (item undo : component.HistoryRecord) (value : component.ReturnValue) (time : ℕ)
      → Undoes start middle
      → timestamp ≤ time
      → component.apply_record middle.inner item ≡ ok ((undo, value), inner)
      → Undoes start (record { inner = inner; history = (time, undo) ∷ middle.history })
  unfolding Undoes undo_history
  undo_one start middle inner item undo value time before late applied b same =
      let (back, undone, restored) =
        laws.apply-undo middle.inner inner b item undo value applied same in
      let (c, e, same_start) = before back.1 restored in
      (c, rw (undo_history, le→leb timestamp time late, undone) e, same_start)

  pub Records-Undoes :
      (start last : HistoryRecorder component)
      → Records component delta timestamp start last
      → Undoes start last
  unfolding Undoes apply_historic_record
  Records-Undoes start _ no_action = λ b same. (b, refl, same)
  Records-Undoes start _ (one_action middle last item value time before late applied) =
      let (((undo, v), inner), e₁, e₂) =
        >>=-eq-ok (component.apply_record middle.inner item) _ applied in
      let (recorded, e₃, e₄) =
        >>=-eq-ok
          (push_history component history_enabled delta time undo
            (record { inner = inner; history = middle.history }))
          _ e₂ in
      let pushed = push_history-ok time undo _ recorded e₃ in
      let same_last : recorded ≡ last = ap (λ p. p.1) (ok-injective e₄) in
      rw (← same_last, pushed)
        (undo_one start middle inner item undo v (normalize_timestamp delta time)
          (Records-Undoes start middle before) late e₁)

  -- What a rollback to a later timestamp leaves is rolled back as what was there before it.
  pub undo_history-later :
      (later : ℕ) (inner : component.State) (history : List (ℕ × component.HistoryRecord))
      (middle : HistoryRecorder component)
      → timestamp ≤ later
      → undo_history component later inner history ≡ ok middle
      → undo_history component timestamp inner history
        ≡ undo_history component timestamp middle.inner middle.history
  unfolding undo_history
  undo_history-later later inner [] middle h e =
      ap (λ r. undo_history component timestamp r.inner r.history) (ok-injective e)
  undo_history-later later inner ((time, item) ∷ history) middle h e =
      elim (Bool-cases (leb later time)) [
        | inl undone ↦
            let (back, applied, e₁) =
              >>=-eq-ok (component.apply_record inner item) _ (rw (undone, undo_history) at e) in
            rw (undo_history, le→leb timestamp time (ground arith), applied)
              (undo_history-later later back.1 history middle h e₁)
        | inr kept ↦
            ap (λ r. undo_history component timestamp r.inner r.history)
              (ok-injective (rw (kept, undo_history) at e))
      ]

  -- A rollback to a timestamp, after any number of recorded actions none of which was before it,
  -- never panics, and leaves the history that there was and a state that is the same as there was,
  -- where that history ended before the timestamp.
  pub rollback_to_timestamp-Records :
      (start last : HistoryRecorder component)
      → Records component delta timestamp start last
      → EndsBefore component timestamp start.history
      → (restored : component.State) × (rollback_to_timestamp component last timestamp
          ≡ ok (record { inner = restored; history = start.history }))
        × laws.Same restored start.inner
  unfolding rollback_to_timestamp undo_history Undoes
  rollback_to_timestamp-Records start last recorded before =
      let (c, e, same) =
        Records-Undoes start last recorded last.inner (laws.Same_refl last.inner) in
      (c, e ∙ stops c start.history before, same)
    where
      stops :
          (c : component.State) (history : List (ℕ × component.HistoryRecord))
          → EndsBefore component timestamp history
          → undo_history component timestamp c history
            ≡ ok (record { inner = c; history = history })
      stops c [] before = refl
      stops c ((time, item) ∷ history) before = rw (undo_history, gt→leb timestamp time before) refl
