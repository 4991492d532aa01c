-- ===== src/Vm/History/Reversible.antt =====
-- crates/multivm/src/versions/vm_latest/old_vm/history_recorder.rs: the components whose actions can be
-- undone: vectors, hash maps, transient storage and framed stacks.
use mathlib.Core.Path.{fun_ext}
use eravm_airbender_verifier.Common.{
  ℕ, ◌≡◌, refl, sym, ap, ◌∙◌, true, false, inl, inr, Option, none, some, List, [], ◌∷◌, ok,
  ok-injective, Bool-cases,
}
use eravm_airbender_verifier.Storage.Log.{StorageKey}
use eravm_airbender_verifier.Vm.Dedup.{KeyMap, key_eq, insert_at, remove_at}
use eravm_airbender_verifier.Vm.Undo.{key_eq→eq}
use eravm_airbender_verifier.Vm.History.{
  VectorHistoryEvent, push, pop, apply_vector, vector, HashMapHistoryEvent, put, apply_map,
  hash_map, StorageHistoryRecord, or_zero, apply_transient, transient_storage,
}
use eravm_airbender_verifier.Vm.History.Framed.{
  FramedStack, FramedStackEvent, push_item, pop_item, push_frame_at, merge_frames, with_data,
  with_frames, pop_data, pop_frames, apply_framed, framed_stack,
}
use eravm_airbender_verifier.Vm.History.Rollback.{Reversible}

vector-undo :
    {X : Type 0} (a : List X) (item : VectorHistoryEvent X)
    (out : (VectorHistoryEvent X × Option X) × List X)
    → apply_vector a item ≡ ok out
    → (last : (VectorHistoryEvent X × Option X) × List X) × (apply_vector out.1 out.0.0 ≡ ok last)
      × (last.1 ≡ a)
unfolding apply_vector
vector-undo a (push x) out e =
    let same : ((pop, none), x ∷ a) ≡ out = ok-injective e in rw (← same) (_, refl, refl)
vector-undo [] pop out e = cc
vector-undo (x ∷ a) pop out e =
    let same : ((push x, some x), a) ≡ out = ok-injective e in rw (← same) (_, refl, refl)

pub vector-Reversible : (X : Type 0) → Reversible (vector X)
unfolding vector
vector-Reversible X = record {
  Same = λ a b. a ≡ b;
  Same_refl = λ a. refl;
  Same_trans = λ a b c p q. p ∙ q;
  apply-undo = λ a a' b item undo value e same.
      let (last, undone, restored) = vector-undo a item ((undo, value), a') e in
      (last, rw same undone, restored);
}

module _ {T : Type 0} where
  pop_data-undo :
      (a : FramedStack T) (items : List T) (out : (FramedStackEvent T × Unit {0}) × FramedStack T)
      → a.stack_data ≡ items
      → pop_data a items ≡ ok out
      → (last : (FramedStackEvent T × Unit {0}) × FramedStack T) × (apply_framed out.1 out.0.0
          ≡ ok last)
        × (last.1 ≡ a)
  unfolding apply_framed
  pop_data-undo a [] out is e = cc
  pop_data-undo a (x ∷ items) out is e =
      let same : ((push_item x, tt), with_data a items) ≡ out = ok-injective e in
      rw (← same) (_, refl, ap (with_data a) (sym is))

  pop_frames-undo :
      (a : FramedStack T) (frames : List ℕ) (out : (FramedStackEvent T × Unit {0}) × FramedStack T)
      → a.frame_start_indices ≡ frames
      → pop_frames a frames ≡ ok out
      → (last : (FramedStackEvent T × Unit {0}) × FramedStack T) × (apply_framed out.1 out.0.0
          ≡ ok last)
        × (last.1 ≡ a)
  unfolding apply_framed
  pop_frames-undo a [] out is e = cc
  pop_frames-undo a (i ∷ frames) out is e =
      let same : ((push_frame_at i, tt), with_frames a frames) ≡ out = ok-injective e in
      rw (← same) (_, refl, ap (with_frames a) (sym is))

  pub framed-undo :
      (a : FramedStack T) (item : FramedStackEvent T)
      (out : (FramedStackEvent T × Unit {0}) × FramedStack T)
      → apply_framed a item ≡ ok out
      → (last : (FramedStackEvent T × Unit {0}) × FramedStack T) × (apply_framed out.1 out.0.0
          ≡ ok last)
        × (last.1 ≡ a)
  unfolding apply_framed
  framed-undo a (push_item x) out e =
      let same : ((pop_item, tt), with_data a (x ∷ a.stack_data)) ≡ out = ok-injective e in
      rw (← same) (_, refl, refl)
  framed-undo a pop_item out e = pop_data-undo a a.stack_data out refl e
  framed-undo a (push_frame_at i) out e =
      let same : ((merge_frames, tt), with_frames a (i ∷ a.frame_start_indices)) ≡ out =
        ok-injective e in
      rw (← same) (_, refl, refl)
  framed-undo a merge_frames out e = pop_frames-undo a a.frame_start_indices out refl e

unfoldable pub framed_stack-Reversible : (T : Type 0) → Reversible (framed_stack T)
unfolding framed_stack
framed_stack-Reversible T = record {
  Same = λ a b. a ≡ b;
  Same_refl = λ a. refl;
  Same_trans = λ a b c p q. p ∙ q;
  apply-undo = λ a a' b item undo value e same.
      let (last, undone, restored) = framed-undo a item ((undo, value), a') e in
      (last, rw same undone, restored);
}

put-at :
    {V : Type 0} (m : KeyMap V) (key k : StorageKey) (value : Option V)
    → key_eq key k ≡ true
    → put m key value k ≡ value
unfolding remove_at insert_at
put-at m key k none e = rw e refl
put-at m key k (some x) e = rw e refl

put-other :
    {V : Type 0} (m : KeyMap V) (key k : StorageKey) (value : Option V)
    → key_eq key k ≡ false
    → put m key value k ≡ m k
unfolding remove_at insert_at
put-other m key k none e = rw e refl
put-other m key k (some x) e = rw e refl

put-put :
    {V : Type 0} (m : KeyMap V) (key : StorageKey) (value : Option V) (k : StorageKey)
    → put (put m key value) key (m key) k ≡ m k
put-put m key value k = elim (Bool-cases (key_eq key k)) [
  | inl same ↦ put-at (put m key value) key k (m key) same ∙ ap m (key_eq→eq key k same)
  | inr other ↦ put-other (put m key value) key k (m key) other ∙ put-other m key k value other
]

map-undo :
    {V : Type 0} (a : KeyMap V) (item : HashMapHistoryEvent V)
    (out : (HashMapHistoryEvent V × Option V) × KeyMap V)
    → apply_map a item ≡ ok out
    → (last : (HashMapHistoryEvent V × Option V) × KeyMap V) × (apply_map out.1 out.0.0 ≡ ok last)
      × (last.1 ≡ a)
unfolding apply_map
map-undo a item out e =
    let same : (
      (record { key = item.key; value = a item.key }, a item.key),
      put a item.key item.value,
    )
        ≡ out =
      ok-injective e in
    rw (← same) (_, refl, fun_ext (put-put a item.key item.value))

pub hash_map-Reversible : (V : Type 0) → Reversible (hash_map V)
unfolding hash_map
hash_map-Reversible V = record {
  Same = λ a b. a ≡ b;
  Same_refl = λ a. refl;
  Same_trans = λ a b c p q. p ∙ q;
  apply-undo = λ a a' b item undo value e same.
      let (last, undone, restored) = map-undo a item ((undo, value), a') e in
      (last, rw same undone, restored);
}

-- Two transient storages that read the same at every slot.
abbrev pub ReadsSame : KeyMap ℕ → KeyMap ℕ → Type 0
ReadsSame m n = (k : StorageKey) → or_zero (m k) ≡ or_zero (n k)

written-back :
    (a b : KeyMap ℕ) (item : StorageHistoryRecord)
    → ReadsSame b (insert_at item.key item.value a)
    → ReadsSame (insert_at item.key (or_zero (a item.key)) b) a
unfolding insert_at
written-back a b item same k = elim (Bool-cases (key_eq item.key k)) [
  | inl here ↦ rw here (ap (λ j. or_zero (a j)) (key_eq→eq item.key k here))
  | inr other ↦ rw other (same k ∙ (rw other refl))
]

transient-undo :
    (a b : KeyMap ℕ) (item : StorageHistoryRecord) (out : (StorageHistoryRecord × ℕ) × KeyMap ℕ)
    → apply_transient a item ≡ ok out
    → ReadsSame b out.1
    → (last : (StorageHistoryRecord × ℕ) × KeyMap ℕ) × (apply_transient b out.0.0 ≡ ok last)
      × ReadsSame last.1 a
unfolding apply_transient
transient-undo a b item out e same =
    let made : (
      (record { key = item.key; value = or_zero (a item.key) }, or_zero (a item.key)),
      insert_at item.key item.value a,
    )
        ≡ out =
      ok-injective e in
    let out_same : ReadsSame b (insert_at item.key item.value a) =
      λ k. same k ∙ ap (λ o. or_zero (o.1 k)) (sym made) in
    rw (← made) (_, refl, written-back a b item out_same)

pub transient_storage-Reversible : Reversible transient_storage
unfolding transient_storage
transient_storage-Reversible = record {
  Same = ReadsSame;
  Same_refl = λ a k. refl;
  Same_trans = λ a b c p q k. p k ∙ q k;
  apply-undo = λ a a' b item undo value e same. transient-undo a b item ((undo, value), a') e same;
}
