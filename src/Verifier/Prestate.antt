-- ===== src/Verifier/Prestate.antt =====
-- crates/airbender_verifier/src/merkle_witness.rs: the storage view that the VM is run over.
use eravm_airbender_verifier.Common.{
  ◌≡◌, refl, sym, ap, ◌∙◌, true, none, some, List, [], ◌∷◌, ◌==◌, inl, inr, ok, arith, Bool-cases,
  Option-cases, >>=-eq-ok, ensure-eq-ok, ok-injective, eq→==, ==→eq, conflicting_prestate,
}
use eravm_airbender_verifier.Tree.Types.{H256}
use eravm_airbender_verifier.Witness.Defs.{StorageLogMetadata}
use eravm_airbender_verifier.Verifier.Defs.{
  WitnessLeaf, PreState, View, classify_witness_leaf, prestate_of, same_prestate, lookup, enter,
  slot_of, build_view_from, build_view_from_merkle_paths,
}

same_prestate→eq : (a b : PreState) → same_prestate a b ≡ true → a ≡ b
same_prestate→eq none none e = refl
same_prestate→eq none (some b) e = cc
same_prestate→eq (some a) none e = cc
same_prestate→eq (some (v, i)) (some (w, j)) e =
    let value : v ≡ w = ground arith in
    let index : i ≡ j = ground arith in λ t. some (value t, index t)

-- The later view holds what the earlier one did.
abbrev Extends : View → View → Type 0
Extends view later =
    (key : H256) (s : PreState) → lookup key view ≡ some s → lookup key later ≡ some s

lookup-new :
    (view : View) (key : H256) (prestate : PreState)
    → lookup key ((key, prestate) ∷ view) ≡ some prestate
unfolding lookup
lookup-new view key prestate = rw (eq→== key key refl)

new_Extends :
    (view : View) (key : H256) (prestate : PreState)
    → lookup key view ≡ none
    → Extends view ((key, prestate) ∷ view)
unfolding lookup
new_Extends view key prestate absent k s e = elim (Bool-cases (key == k)) [
  | inl same ↦ absurd (none-some (sym absent ∙ ap (λ q. lookup q view) (==→eq key k same) ∙ e))
  | inr other ↦ rw other e
]
  where
    none-some : {s : PreState} → none ≡ some s → ⊥
    none-some h = cc

enter-Extends :
    (view later : View) (key : H256) (prestate : PreState)
    → enter view key prestate (lookup key view) ≡ ok later
    → (lookup key later ≡ some prestate) × Extends view later
unfolding enter
enter-Extends view later key prestate e = elim (Option-cases (lookup key view)) [
  | inl absent ↦
      let same = ok-injective (rw absent at e) in
      rw (← same) (lookup-new view key prestate, new_Extends view key prestate absent)
  | inr (old, present) ↦
      let (agree, done) = ensure-eq-ok _ conflicting_prestate _ (rw present at e) in
      let same = ok-injective done in
      rw (← same) (present ∙ ap some (same_prestate→eq old prestate agree), λ k s h. h)
]

-- Every entry is well formed, and its slot holds the pre-state that the entry claims.
abbrev pub AllClaimed : View → List StorageLogMetadata → Type 0
AllClaimed view [] = Unit
AllClaimed view (log ∷ logs) =
    ((leaf : WitnessLeaf) × (classify_witness_leaf log ≡ ok leaf)
      × (lookup (slot_of log) view ≡ some (prestate_of leaf)))
    × AllClaimed view logs

build_view_from-AllClaimed :
    (logs : List StorageLogMetadata) (view later : View)
    → build_view_from view logs ≡ ok later
    → AllClaimed later logs × Extends view later
unfolding build_view_from
build_view_from-AllClaimed [] view later e =
    (tt, λ key s h. ap (lookup key) (sym (ok-injective e)) ∙ h)
build_view_from-AllClaimed (log ∷ logs) view later e =
    let (leaf, classified, e₁) = >>=-eq-ok (classify_witness_leaf log) _ e in
    let (next, entered, e₂) =
      >>=-eq-ok (enter view (slot_of log) (prestate_of leaf) (lookup (slot_of log) view)) _ e₁ in
    let (here, extends) = enter-Extends view next (slot_of log) (prestate_of leaf) entered in
    let (claimed, above) = build_view_from-AllClaimed logs next later e₂ in
    (
      ((leaf, classified, above (slot_of log) (prestate_of leaf) here), claimed),
      λ key s h. above key s (extends key s h),
    )

-- Where the view is built, every entry of the witness is well formed and its slot holds the pre-state
-- that the entry claims: no later entry of the same slot changes it, so entries that conflict, or that
-- are malformed, are rejected.
pub build_view_from_merkle_paths-AllClaimed :
    (logs : List StorageLogMetadata) (view : View)
    → build_view_from_merkle_paths logs ≡ ok view
    → AllClaimed view logs
unfolding build_view_from_merkle_paths
build_view_from_merkle_paths-AllClaimed logs view e = (build_view_from-AllClaimed logs [] view e).0
