-- ===== src/Vm/Undo.antt =====
-- crates/multivm/src/utils/deduplicator.rs: what undoes a change of a slot or a counter.
use mathlib.Core.Path.{fun_ext, ap₂}
use eravm_airbender_verifier.Common.{
  ℕ, ◌^◌, ◌≡◌, ◌<◌, refl, sym, ap, ◌∙◌, Bool, true, false, none, some, List, [], ◌∷◌, ◌++◌, ok,
  arith, Bool-cases, Option-cases, inl, inr, eq→==,
}
use eravm_airbender_verifier.Tree.Types.{H256}
use eravm_airbender_verifier.Storage.Log.{StorageKey}
use eravm_airbender_verifier.Vm.Dedup.{
  ModifiedSlot, UpdateItem, update, insert, DeduplicatedWritesMetrics, KeyMap,
  StorageWritesDeduplicator, key_eq, insert_at, remove_at, add_usize, sub_usize, change_metrics,
  with_modified, enter_initial, undo, rollback,
}

key_eq_refl : (k : StorageKey) → key_eq k k ≡ true
unfolding key_eq
key_eq_refl k = rw (eq→== k.address k.address refl, eq→== k.key k.key refl)

pub key_eq→eq : (j k : StorageKey) → key_eq j k ≡ true → j ≡ k
unfolding key_eq
key_eq→eq j k e =
    let address : j.address ≡ k.address = ground arith in
    let key : j.key ≡ k.key = ground arith in
    ap₂ (λ a b. record { address = a; key = b }) address key

pub insert_at-same :
    {A : Type 0} (k : StorageKey) (a : A) (m : KeyMap A) → insert_at k a m k ≡ some a
unfolding insert_at
insert_at-same k a m = rw (key_eq_refl k)

module _ {A : Type 0} (k : StorageKey) (a : A) (m : KeyMap A) where
  pub remove_at-insert_at : m k ≡ none → remove_at k (insert_at k a m) ≡ m
  unfolding insert_at remove_at
  remove_at-insert_at e = fun_ext (λ j. elim (Bool-cases (key_eq k j)) [
    | inl s ↦ rw s (sym e ∙ ap m (key_eq→eq k j s))
    | inr d ↦ rw d
  ])

  pub insert_at-insert_at : (old : A) → m k ≡ some old → insert_at k old (insert_at k a m) ≡ m
  unfolding insert_at
  insert_at-insert_at old e = fun_ext (λ j. elim (Bool-cases (key_eq k j)) [
    | inl s ↦ rw s (sym e ∙ ap m (key_eq→eq k j s))
    | inr d ↦ rw d
  ])

  pub insert_at-remove_at : m k ≡ some a → insert_at k a (remove_at k m) ≡ m
  unfolding insert_at remove_at
  insert_at-remove_at e = fun_ext (λ j. elim (Bool-cases (key_eq k j)) [
    | inl s ↦ rw s (sym e ∙ ap m (key_eq→eq k j s))
    | inr d ↦ rw d
  ])

pub sub_usize-add_usize : (n k : ℕ) → n < 2 ^ 64 → sub_usize (add_usize n k) k ≡ n
unfolding add_usize sub_usize
sub_usize-add_usize n k h = omega arith

pub add_usize-sub_usize : (n k : ℕ) → n < 2 ^ 64 → add_usize (sub_usize n k) k ≡ n
unfolding add_usize sub_usize
add_usize-sub_usize n k h = omega arith

-- The counters are in the range of their type.
pub record MetricsInRange (m : DeduplicatedWritesMetrics) : Type 0 where
  pub initial_IsUsize : m.initial_storage_writes < 2 ^ 64
  pub repeated_IsUsize : m.repeated_storage_writes < 2 ^ 64
  pub size_IsUsize : m.total_updated_values_size < 2 ^ 64

pub change_metrics-undo :
    (m : DeduplicatedWritesMetrics) (initial : Bool) (f g f' g' : ℕ → ℕ)
    → MetricsInRange m
    → ((n : ℕ) → n < 2 ^ 64 → f' (f n) ≡ n)
    → ((n : ℕ) → n < 2 ^ 64 → g' (g n) ≡ n)
    → change_metrics (change_metrics m initial f g) initial f' g' ≡ m
unfolding change_metrics
change_metrics-undo m true f g f' g' r ff gg = rw (ff _ r.initial_IsUsize, gg _ r.size_IsUsize)
change_metrics-undo m false f g f' g' r ff gg = rw (ff _ r.repeated_IsUsize, gg _ r.size_IsUsize)

pub change_metrics-MetricsInRange :
    (m : DeduplicatedWritesMetrics) (initial : Bool) (f g : ℕ → ℕ)
    → MetricsInRange m
    → ((n : ℕ) → n < 2 ^ 64 → f n < 2 ^ 64)
    → ((n : ℕ) → n < 2 ^ 64 → g n < 2 ^ 64)
    → MetricsInRange (change_metrics m initial f g)
unfolding change_metrics
change_metrics-MetricsInRange m true f g r ff gg = record {
  initial_IsUsize = ff _ r.initial_IsUsize;
  repeated_IsUsize = r.repeated_IsUsize;
  size_IsUsize = gg _ r.size_IsUsize;
}
change_metrics-MetricsInRange m false f g r ff gg = record {
  initial_IsUsize = r.initial_IsUsize;
  repeated_IsUsize = ff _ r.repeated_IsUsize;
  size_IsUsize = gg _ r.size_IsUsize;
}

pub add_usize-lt : (a b : ℕ) → add_usize a b < 2 ^ 64
unfolding add_usize
add_usize-lt a b = omega arith

pub sub_usize-lt : (a b : ℕ) → sub_usize a b < 2 ^ 64
unfolding sub_usize
sub_usize-lt a b = omega arith

pub enter_initial-keeps :
    (s : StorageWritesDeduplicator) (key : StorageKey) (previous_value : H256)
    → ((enter_initial s key previous_value).0.modified_key_values ≡ s.modified_key_values)
      × ((enter_initial s key previous_value).0.metrics ≡ s.metrics)
      × ((enter_initial s key previous_value).0.snapshots ≡ s.snapshots)
unfolding enter_initial
enter_initial-keeps s key previous_value = elim (Option-cases (s.initial_values key)) [
  | inl absent ↦ rw absent (refl, refl, refl)
  | inr (value, present) ↦ rw present (refl, refl, refl)
]

pub rollback-append :
    (s later : StorageWritesDeduplicator) (xs ys : List UpdateItem)
    → rollback s ys ≡ ok later
    → rollback s (xs ++ ys) ≡ rollback later xs
unfolding rollback
rollback-append s later [] ys e = e
rollback-append s later (x ∷ xs) ys e = rw (rollback-append s later xs ys e)

pub undo-insert :
    (s : StorageWritesDeduplicator) (key : StorageKey) (initial : Bool) (slot : ModifiedSlot)
    → s.modified_key_values key ≡ some slot
    → undo s (record { key = key; update_type = insert; is_write_initial = initial })
      ≡ ok (
          with_modified s
            (remove_at key s.modified_key_values)
            (change_metrics s.metrics initial (λ n. sub_usize n 1) (λ n. sub_usize n slot.size)))
unfolding undo
undo-insert s key initial slot e = rw e

pub undo-update :
    (s : StorageWritesDeduplicator) (key : StorageKey) (initial : Bool) (old slot : ModifiedSlot)
    → s.modified_key_values key ≡ some slot
    → undo s (record { key = key; update_type = update old; is_write_initial = initial })
      ≡ ok (
          with_modified s (insert_at key old s.modified_key_values) (
            change_metrics s.metrics initial
              (λ n. n)
              (λ n. sub_usize (add_usize n old.size) slot.size)))
unfolding undo
undo-update s key initial old slot e = rw e

pub usize_update :
    (n old new : ℕ)
    → n < 2 ^ 64
    → sub_usize (add_usize (add_usize (sub_usize n old) new) old) new ≡ n
unfolding add_usize sub_usize
usize_update n old new h = omega arith
