-- ===== src/Vm/Cache.antt =====
-- crates/vm_interface/src/storage/view.rs: the view refines a storage that is written in place.
use eravm_airbender_verifier.Common.{
  ◌≡◌, refl, sym, ap, ◌∙◌, Bool, Option, none, some, List, [], ◌∷◌, Outcome, ok, err, panic, ◌>>=◌,
  Bool-cases, Option-cases, inl, inr,
}
use eravm_airbender_verifier.Tree.Types.{H256}
use eravm_airbender_verifier.Storage.Log.{StorageKey}
use eravm_airbender_verifier.Vm.Dedup.{KeyMap, key_eq, insert_at}
use eravm_airbender_verifier.Vm.Undo.{key_eq→eq}
use eravm_airbender_verifier.Vm.Storage.{
  ReadStorage, StorageView, new_view, with_initial, with_written, get_value_no_log, view_read_value,
  view_is_write_initial, set_value, get_cached, miss, initial_cached, immutable_read_value,
}

-- What the VM asks of a storage.
pub data Operation : Type 0 where
  read_value read_committed is_write_initial : StorageKey → Operation
  set_value_to : StorageKey → H256 → Operation

pub data Answer : Type 0 where
  value : H256 → Answer
  initialness : Bool → Answer

abbrev some_or {ℓ} : {A : Type ℓ} → A → Option A → A
some_or d none = d
some_or d (some a) = a

some-injective {ℓ} : {A : Type ℓ} {a b : A} → some a ≡ some b → a ≡ b
some-injective {a = a} e = ap (some_or a) e

abbrev answer_value {ℓ} : {S : Type ℓ} → Outcome (H256 × S) → Outcome (Answer × S)
answer_value (ok (v, s)) = ok (value v, s)
answer_value (err e) = err e
answer_value (panic p) = panic p

abbrev answer_initial {ℓ} : {S : Type ℓ} → Outcome (Bool × S) → Outcome (Answer × S)
answer_initial (ok (i, s)) = ok (initialness i, s)
answer_initial (err e) = err e
answer_initial (panic p) = panic p

-- The answer of a step, and then those of the rest.
abbrev and_then {ℓ} :
    {S : Type ℓ} → Outcome (Answer × S) → (S → Outcome (List Answer)) → Outcome (List Answer)
and_then (ok (answer, s)) rest = rest s >>= λ answers. ok (answer ∷ answers)
and_then (err e) rest = err e
and_then (panic p) rest = panic p

-- An answer in a state that it does not change.
abbrev in_state {ℓ κ} : {A : Type ℓ} {S : Type κ} → S → Outcome A → Outcome (A × S)
in_state s (ok a) = ok (a, s)
in_state s (err e) = err e
in_state s (panic p) = panic p

abbrev the_pair {ℓ κ} : {A : Type ℓ} {B : Type κ} → A → B → A × B
the_pair a b = (a, b)

module _ (storage_handle : ReadStorage) where
  -- The view's answers to a run of operations.
  abbrev step_view : StorageView → Operation → Outcome (Answer × StorageView)
  step_view view (read_value key) = answer_value (view_read_value storage_handle view key)
  step_view view (read_committed key) = answer_value (immutable_read_value storage_handle view key)
  step_view view (is_write_initial key) =
      answer_initial (view_is_write_initial storage_handle view key)
  step_view view (set_value_to key new) = answer_value (set_value storage_handle view key new)

  abbrev pub run_view : StorageView → List Operation → Outcome (List Answer)
  run_view view [] = ok []
  run_view view (operation ∷ operations) =
      and_then (step_view view operation) (λ s. run_view s operations)

  -- The specification: values written over the handle's, and no cache.
  abbrev value_at : KeyMap H256 → StorageKey → Outcome H256
  value_at written key = go (written key)
    where
      go : Option H256 → Outcome H256
      go none = storage_handle.read_value key
      go (some v) = ok v

  abbrev step_memory : KeyMap H256 → Operation → Outcome (Answer × KeyMap H256)
  step_memory written (read_value key) = answer_value (in_state written (value_at written key))
  step_memory written (read_committed key) =
      answer_value (in_state written (storage_handle.read_value key))
  step_memory written (is_write_initial key) =
      answer_initial (in_state written (storage_handle.is_write_initial key))
  step_memory written (set_value_to key new) =
      answer_value (in_state (insert_at key new written) (value_at written key))

  abbrev pub run_memory : KeyMap H256 → List Operation → Outcome (List Answer)
  run_memory written [] = ok []
  run_memory written (operation ∷ operations) =
      and_then (step_memory written operation) (λ s. run_memory s operations)

  -- The caches hold what the handle answers.
  record IsCoherent (view : StorageView) : Type 0 where
    reads :
        (key : StorageKey) (v : H256)
        → view.read_storage_keys key ≡ some v
        → storage_handle.read_value key ≡ ok v
    initials :
        (key : StorageKey) (i : Bool)
        → view.initial_writes key ≡ some i
        → storage_handle.is_write_initial key ≡ ok i

  insert_at-holds :
      {A : Type 0} (answer : StorageKey → Outcome A) (cache : KeyMap A) (key : StorageKey) (a : A)
      → ((k : StorageKey) (b : A) → cache k ≡ some b → answer k ≡ ok b)
      → answer key ≡ ok a
      → (k : StorageKey) (b : A) → insert_at key a cache k ≡ some b
      → answer k ≡ ok b
  unfolding insert_at
  insert_at-holds answer cache key a h e k b at = elim (Bool-cases (key_eq key k)) [
    | inl same ↦ ap answer (sym (key_eq→eq key k same)) ∙ e ∙ ap ok (some-injective (rw same at at))
    | inr other ↦ h k b (rw other at at)
  ]

  -- A read that gives a value: the specification's value, or its failure, and a coherent view.
  abbrev Gives : StorageView → Outcome (H256 × StorageView) → Outcome H256 → Type 0
  Gives view (ok (v, view')) spec =
      (spec ≡ ok v) × (view'.modified_storage_keys ≡ view.modified_storage_keys) × IsCoherent view'
  Gives view (err e) spec = spec ≡ err e
  Gives view (panic p) spec = spec ≡ panic p

  miss-Gives :
      (view : StorageView) (key : StorageKey) (o : Outcome H256)
      → IsCoherent view
      → storage_handle.read_value key ≡ o
      → Gives view
          (o >>= λ v. ok (v, miss storage_handle view key v))
          (storage_handle.read_value key)
  unfolding miss
  miss-Gives view key (ok v) c e = (
    e,
    refl,
    record {
      reads = insert_at-holds storage_handle.read_value view.read_storage_keys key v c.reads e;
      initials = c.initials;
    },
  )
  miss-Gives view key (err f) c e = e
  miss-Gives view key (panic p) c e = e

  get_cached-Gives :
      (view : StorageView) (key : StorageKey)
      → IsCoherent view
      → Gives view
          (get_cached storage_handle view key (view.read_storage_keys key))
          (storage_handle.read_value key)
  unfolding get_cached
  get_cached-Gives view key c = elim (Option-cases (view.read_storage_keys key)) [
    | inl absent ↦ rw absent (miss-Gives view key (storage_handle.read_value key) c refl)
    | inr (v, present) ↦ rw present (c.reads key v present, refl, c)
  ]

  get_value-Gives :
      (view : StorageView) (key : StorageKey)
      → IsCoherent view
      → Gives view
          (get_value_no_log storage_handle view key)
          (value_at view.modified_storage_keys key)
  unfolding get_value_no_log get_cached
  get_value-Gives view key c = elim (Option-cases (view.modified_storage_keys key)) [
    | inl absent ↦ rw absent (get_cached-Gives view key c)
    | inr (v, present) ↦ rw present (refl, refl, c)
  ]

  module _ (operations : List Operation)
      (rest : (view : StorageView)
        → IsCoherent view
        → run_view view operations ≡ run_memory view.modified_storage_keys operations) where
    read_then :
        (view : StorageView) (m : Outcome (H256 × StorageView)) (spec : Outcome H256)
        → Gives view m spec
        → and_then (answer_value m) (λ s. run_view s operations)
          ≡ and_then
              (answer_value (in_state view.modified_storage_keys spec))
              (λ s. run_memory s operations)
    read_then view (ok (v, view')) spec (gives, kept, c) = rw (gives, ← kept, rest view' c)
    read_then view (err e) spec gives = rw gives
    read_then view (panic p) spec gives = rw gives

    set_then :
        (view : StorageView) (key : StorageKey) (new : H256) (m : Outcome (H256 × StorageView))
        (spec : Outcome H256)
        → Gives view m spec
        → and_then
            (answer_value (m >>= λ r. ok (the_pair r.0 (with_written r.1 key new))))
            (λ s. run_view s operations)
          ≡ and_then
              (answer_value (in_state (insert_at key new view.modified_storage_keys) spec))
              (λ s. run_memory s operations)
    set_then view key new (ok (v, view')) spec (gives, kept, c) = rw (
      gives,
      ← kept,
      rest (with_written view' key new) (record { reads = c.reads; initials = c.initials }),
    )
    set_then view key new (err e) spec gives = rw gives
    set_then view key new (panic p) spec gives = rw gives

    initial_then :
        (view : StorageView) (key : StorageKey) (o : Outcome Bool)
        → IsCoherent view
        → storage_handle.is_write_initial key ≡ o
        → and_then
            (answer_initial (o >>= λ i. ok (the_pair i (with_initial view key i))))
            (λ s. run_view s operations)
          ≡ and_then
              (answer_initial (in_state view.modified_storage_keys o))
              (λ s. run_memory s operations)
    initial_then view key (ok i) c e = rw (
        rest (with_initial view key i) (record {
          reads = c.reads;
          initials =
              insert_at-holds storage_handle.is_write_initial view.initial_writes key i c.initials
                e;
        }))
    initial_then view key (err f) c e = refl
    initial_then view key (panic p) c e = refl

    step_then :
        (view : StorageView) (operation : Operation)
        → IsCoherent view
        → run_view view (operation ∷ operations)
          ≡ run_memory view.modified_storage_keys (operation ∷ operations)
    unfolding view_read_value immutable_read_value view_is_write_initial initial_cached set_value
    step_then view (read_value key) c = read_then view _ _ (get_value-Gives view key c)
    step_then view (read_committed key) c = read_then view _ _ (get_cached-Gives view key c)
    step_then view (set_value_to key new) c = set_then view key new _ _ (get_value-Gives view key c)
    step_then view (is_write_initial key) c = elim (Option-cases (view.initial_writes key)) [
      | inl absent ↦ rw absent (initial_then view key (storage_handle.is_write_initial key) c refl)
      | inr (i, present) ↦ rw (present, c.initials key i present, rest view c)
    ]

  run_view-coherent :
      (operations : List Operation) (view : StorageView)
      → IsCoherent view
      → run_view view operations ≡ run_memory view.modified_storage_keys operations
  run_view-coherent [] view c = refl
  run_view-coherent (operation ∷ operations) view c =
      step_then operations (run_view-coherent operations) view operation c

  -- From an empty view, any run of reads, committed reads, initialness checks and writes gives the
  -- answers, or the failure, of a memory that is written in place over the underlying storage:
  -- neither cache is ever seen.
  pub run_view-new_view :
      (operations : List Operation)
      → run_view new_view operations ≡ run_memory (λ k. none) operations
  unfolding new_view
  run_view-new_view operations =
      run_view-coherent operations new_view
        (record { reads = λ key v e. absurd cc; initials = λ key i e. absurd cc })
