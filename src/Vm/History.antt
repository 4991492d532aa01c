-- ===== src/Vm/History.antt =====
-- crates/multivm/src/versions/vm_latest/old_vm/history_recorder.rs: state with a history that undoes
-- it. `TIME_DELTA_PER_CYCLE` is an argument. A vector's last element is the head of its list.
pub mod Steps
pub mod Manager
pub mod Reversible
pub mod Framed
pub mod Rollback
use eravm_airbender_verifier.Common.{
  ℕ, zero, suc, ◌+◌, ◌-◌, ◌%◌, Bool, true, false, Option, none, some, List, [], ◌∷◌, leb,
  if◌then◌else◌, Outcome, ok, panic, assert, ◌>>=◌, ◌>>◌, pop_from_empty, timestamps_not_monotonic,
}
use eravm_airbender_verifier.Storage.Log.{StorageKey}
use eravm_airbender_verifier.Vm.Dedup.{KeyMap, insert_at, remove_at}

-- The trait: an action gives the action that undoes it, and a value.
pub record WithHistory : Type 1 where
  pub State : Type 0
  pub HistoryRecord : Type 0
  pub ReturnValue : Type 0
  pub apply_record : State → HistoryRecord → Outcome ((HistoryRecord × ReturnValue) × State)

pub data HistoryMode : Type 0 where
  history_enabled history_disabled : HistoryMode

-- The history is empty where it is disabled.
pub record HistoryRecorder (component : WithHistory) : Type 0 where
  pub inner : component.State
  pub history : List (ℕ × component.HistoryRecord)

unfoldable pub normalize_timestamp : ℕ → ℕ → ℕ
normalize_timestamp time_delta_per_cycle timestamp = timestamp - timestamp % time_delta_per_cycle

module _ (component : WithHistory) where
  unfoldable pub from_inner : component.State → HistoryRecorder component
  from_inner inner = record { inner = inner; history = [] }

  -- `history.last().map(|(t, _)| *t).unwrap_or(Timestamp(0))`
  abbrev pub last_recorded_timestamp : List (ℕ × component.HistoryRecord) → ℕ
  last_recorded_timestamp [] = 0
  last_recorded_timestamp ((timestamp, item) ∷ history) = timestamp

  -- `mutate_history`, with the push of the undoing action.
  unfoldable pub push_history :
      HistoryMode
      → ℕ
      → ℕ
      → component.HistoryRecord
      → HistoryRecorder component
      → Outcome (HistoryRecorder component)
  unfolding normalize_timestamp
  push_history history_disabled delta timestamp reversed_item recorder = ok recorder
  push_history history_enabled delta timestamp reversed_item recorder = do
    let normalized = normalize_timestamp delta timestamp
    assert (leb (last_recorded_timestamp recorder.history) normalized) timestamps_not_monotonic
    ok (record { inner = recorder.inner; history = (normalized, reversed_item) ∷ recorder.history })

  unfoldable pub apply_historic_record :
      HistoryMode
      → ℕ
      → HistoryRecorder component
      → component.HistoryRecord
      → ℕ
      → Outcome (component.ReturnValue × HistoryRecorder component)
  unfolding push_history
  apply_historic_record mode delta recorder item timestamp = do
    ((reversed_item, return_value), inner) ← component.apply_record recorder.inner item
    recorded ←
        push_history mode delta timestamp reversed_item
          (record { inner = inner; history = recorder.history })
    ok (return_value, recorded)

  unfoldable pub delete_history : HistoryRecorder component → HistoryRecorder component
  delete_history recorder = record { inner = recorder.inner; history = [] }

  -- The loop pops and undoes while the last item is not before the timestamp.
  unfoldable pub undo_history :
      ℕ → component.State → List (ℕ × component.HistoryRecord) → Outcome (HistoryRecorder component)
  undo_history timestamp inner [] = ok (record { inner = inner; history = [] })
  undo_history timestamp inner ((item_timestamp, item_to_apply) ∷ history) =
      elim (leb timestamp item_timestamp) [
        | true ↦ component.apply_record inner item_to_apply >>= λ undone.
            undo_history timestamp undone.1 history
        | false ↦ ok (record { inner = inner; history = (item_timestamp, item_to_apply) ∷ history })
      ]

  unfoldable pub rollback_to_timestamp :
      HistoryRecorder component → ℕ → Outcome (HistoryRecorder component)
  unfolding undo_history
  rollback_to_timestamp recorder timestamp = undo_history timestamp recorder.inner recorder.history

-- Vectors.
pub data VectorHistoryEvent (X : Type 0) : Type 0 where
  push : X → VectorHistoryEvent X
  pop : VectorHistoryEvent X

unfoldable pub apply_vector :
    {X : Type 0}
    → List X
    → VectorHistoryEvent X
    → Outcome ((VectorHistoryEvent X × Option X) × List X)
apply_vector vector (push x) = ok ((pop, none), x ∷ vector)
apply_vector [] pop = panic pop_from_empty
apply_vector (x ∷ vector) pop = ok ((push x, some x), vector)

unfoldable pub vector : Type 0 → WithHistory
vector X = record {
  State = List X;
  HistoryRecord = VectorHistoryEvent X;
  ReturnValue = Option X;
  apply_record = apply_vector;
}

-- Hash maps over storage keys.
pub record HashMapHistoryEvent (V : Type 0) : Type 0 where
  pub key : StorageKey
  pub value : Option V

abbrev pub put : {V : Type 0} → KeyMap V → StorageKey → Option V → KeyMap V
put m key none = remove_at key m
put m key (some x) = insert_at key x m

unfoldable pub apply_map :
    {V : Type 0}
    → KeyMap V
    → HashMapHistoryEvent V
    → Outcome ((HashMapHistoryEvent V × Option V) × KeyMap V)
apply_map m event =
    ok ((record { key = event.key; value = m event.key }, m event.key), put m event.key event.value)

unfoldable pub hash_map : Type 0 → WithHistory
hash_map V = record {
  State = KeyMap V;
  HistoryRecord = HashMapHistoryEvent V;
  ReturnValue = Option V;
  apply_record = apply_map;
}

pub record StorageHistoryRecord : Type 0 where
  pub key : StorageKey
  pub value : ℕ

abbrev pub or_zero : Option ℕ → ℕ
or_zero none = 0
or_zero (some value) = value

-- `TransientStorageWrapper`: a slot that was never written reads as zero.
unfoldable pub apply_transient :
    KeyMap ℕ → StorageHistoryRecord → Outcome ((StorageHistoryRecord × ℕ) × KeyMap ℕ)
apply_transient m item = ok (
  (record { key = item.key; value = or_zero (m item.key) }, or_zero (m item.key)),
  insert_at item.key item.value m,
)

unfoldable pub transient_storage : WithHistory
transient_storage = record {
  State = KeyMap ℕ;
  HistoryRecord = StorageHistoryRecord;
  ReturnValue = ℕ;
  apply_record = apply_transient;
}
