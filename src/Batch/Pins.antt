-- ===== src/Batch/Pins.antt =====
-- crates/airbender_verifier/src/lib.rs: what the checks at the start of `execute` pin.
use mathlib.Core.Path.{ap₂}
use eravm_airbender_verifier.Common.{
  ℕ, ◌-◌, ◌^◌, ◌≡◌, refl, ap, ◌∙◌, Bool, true, false, ◌&&◌, Option, none, some, List, [], ◌∷◌, ◌==◌,
  list_eqb, concat, Error, ok, >>=-eq-ok, ensure-eq-ok, ensure-true, ok-injective, ==→eq,
  unsupported_protocol_version, unsupported_by_fast_vm, previous_batch_hash_missing,
  enforced_base_fee_present, batch_number_mismatch, protocol_version_mismatch,
  incompatible_pubdata_validator, wrong_execution_mode, wrong_validation_gas_limit,
  first_l2_block_mismatch, default_account_mismatch, evm_emulator_mismatch,
  bootloader_code_mismatch,
}
use eravm_airbender_verifier.Tree.Types.{H256}
use eravm_airbender_verifier.Batch.Version.{latest, is_pre_medium_interop}
use eravm_airbender_verifier.Batch.Env.{
  BaseSystemContracts, TxExecutionMode, verify_execute, estimate_fee, eth_call, is_verify_execute,
  InteropRoot, interop_root_eqb, L2BlockEnv, L2BlockExecutionData, from_l2_block_data, is_address,
  VmRunWitnessInputData, AirbenderVerifierInput,
}
use eravm_airbender_verifier.Batch.Execute.{
  validation_computational_gas_limit, context, is_none, option_eqb, bool_eqb, same_first_block,
  first_block_matches, check_environment, emulator_hash, check_copies,
}

pub &&-true : (a b : Bool) → (a && b) ≡ true → (a ≡ true) × (b ≡ true)
&&-true true b e = (refl, e)
&&-true false b e = cc

pub list_eqb-eq {ℓ} :
    {A : Type ℓ} (same : A → A → Bool)
    → ((x y : A) → same x y ≡ true → x ≡ y)
    → (xs ys : List A) → list_eqb same xs ys ≡ true
    → xs ≡ ys
list_eqb-eq same sound [] [] e = refl
list_eqb-eq same sound [] (y ∷ ys) e = cc
list_eqb-eq same sound (x ∷ xs) [] e = cc
list_eqb-eq same sound (x ∷ xs) (y ∷ ys) e =
    let (first, rest) = &&-true (same x y) (list_eqb same xs ys) e in
    ap₂ ◌∷◌ (sound x y first) (list_eqb-eq same sound xs ys rest)

interop_root_eqb-eq : (a b : InteropRoot) → interop_root_eqb a b ≡ true → a ≡ b
interop_root_eqb-eq a b e =
    let (chain, rest) = &&-true (a.chain_id == b.chain_id) _ e in
    let (number, sides) = &&-true (a.block_number == b.block_number) _ rest in
    let same_sides = list_eqb-eq ◌==◌ ==→eq a.sides b.sides sides in
    let same_chain = ==→eq a.chain_id b.chain_id chain in
    let same_number = ==→eq a.block_number b.block_number number in
    λ i. record { chain_id = same_chain i; block_number = same_number i; sides = same_sides i }

option_eqb-eq : (a b : Option ℕ) → option_eqb a b ≡ true → a ≡ b
option_eqb-eq none none e = refl
option_eqb-eq none (some b) e = cc
option_eqb-eq (some a) none e = cc
option_eqb-eq (some a) (some b) e = ap some (==→eq a b e)

is_none-eq {ℓ} : {A : Type ℓ} (o : Option A) → is_none o ≡ true → o ≡ none
is_none-eq none e = refl
is_none-eq (some a) e = cc

is_verify_execute-eq :
    (mode : TxExecutionMode) → is_verify_execute mode ≡ true → mode ≡ verify_execute
is_verify_execute-eq verify_execute e = refl
is_verify_execute-eq estimate_fee e = cc
is_verify_execute-eq eth_call e = cc

pub context-some {ℓ} :
    {A : Type ℓ} (o : Option A) (message : Error) {a : A} → context o message ≡ ok a → o ≡ some a
context-some none message e = cc
context-some (some b) message e = ap some (ok-injective e)

-- The first block, where there is one, is the one of the batch environment.
abbrev pub FirstBlock :
    {Transaction : Type 0} → List (L2BlockExecutionData Transaction) → L2BlockEnv → Type 0
FirstBlock [] canonical = Unit
FirstBlock (first ∷ blocks) canonical = from_l2_block_data first ≡ canonical

five_fields :
    (a b : L2BlockEnv)
    → a.number ≡ b.number
    → a.timestamp ≡ b.timestamp
    → a.prev_block_hash ≡ b.prev_block_hash
    → a.max_virtual_blocks_to_create ≡ b.max_virtual_blocks_to_create
    → a.interop_roots ≡ b.interop_roots
    → a ≡ b
five_fields a b n t h v r = λ i. record {
  number = n i;
  timestamp = t i;
  prev_block_hash = h i;
  max_virtual_blocks_to_create = v i;
  interop_roots = r i;
}

first_block_matches-FirstBlock :
    {Transaction : Type 0} (blocks : List (L2BlockExecutionData Transaction))
    (canonical : L2BlockEnv)
    → first_block_matches blocks canonical ≡ true
    → FirstBlock blocks canonical
unfolding first_block_matches same_first_block from_l2_block_data
first_block_matches-FirstBlock [] canonical e = tt
first_block_matches-FirstBlock (first ∷ blocks) canonical e =
    let (number, e₁) = &&-true (first.number == canonical.number) _ e in
    let (timestamp, e₂) = &&-true (first.timestamp == canonical.timestamp) _ e₁ in
    let (hash, e₃) = &&-true (first.prev_block_hash == canonical.prev_block_hash) _ e₂ in
    let (virtual, roots) =
      &&-true (first.virtual_blocks == canonical.max_virtual_blocks_to_create) _ e₃ in
    five_fields (from_l2_block_data first) canonical (==→eq _ _ number) (==→eq _ _ timestamp)
      (==→eq _ _ hash) (==→eq _ _ virtual)
      (list_eqb-eq interop_root_eqb interop_root_eqb-eq _ _ roots)

-- What is no longer free after the checks: the version and its copy, the base fee, the batch number's
-- copy, the validator's shape, the execution mode, the gas limit and the first block.
pub record Pinned {Transaction : Type 0} (input : AirbenderVerifierInput Transaction)
    (old_root_hash : H256) : Type 0 where
  pub version_31 : input.system_env.version.number ≡ 31
  pub old_root : input.l1_batch_env.previous_batch_hash ≡ some old_root_hash
  pub no_base_fee : input.l1_batch_env.enforced_base_fee ≡ none
  pub same_number : input.vm_run_data.l1_batch_number ≡ input.l1_batch_env.number
  pub same_version : input.vm_run_data.protocol_version.number ≡ 31
  pub is_scheme : is_address input.pubdata_params.pubdata_validator ≡ false
  pub executes_verified : input.system_env.execution_mode ≡ verify_execute
  pub unlimited : input.system_env.default_validation_computational_gas_limit ≡ 2 ^ 32 - 1
  pub first_block : FirstBlock input.l2_blocks_execution_data input.l1_batch_env.first_l2_block

pub check_environment-Pinned :
    {Transaction : Type 0} (input : AirbenderVerifierInput Transaction) (old_root_hash : H256)
    → check_environment input ≡ ok old_root_hash
    → Pinned input old_root_hash
unfolding check_environment latest validation_computational_gas_limit is_pre_medium_interop
check_environment-Pinned input old_root_hash e =
    let env = input.system_env in
    let batch = input.l1_batch_env in
    let (version, e₁) = ensure-eq-ok _ unsupported_protocol_version _ e in
    let (_, e₂) = ensure-eq-ok _ unsupported_by_fast_vm _ e₁ in
    let (root, there, e₃) =
      >>=-eq-ok (context batch.previous_batch_hash previous_batch_hash_missing) _ e₂ in
    let (fee, e₄) = ensure-eq-ok _ enforced_base_fee_present _ e₃ in
    let (number, e₅) = ensure-eq-ok _ batch_number_mismatch _ e₄ in
    let (copy, e₆) = ensure-eq-ok _ protocol_version_mismatch _ e₅ in
    let (validator, e₇) = ensure-eq-ok _ incompatible_pubdata_validator _ e₆ in
    let (mode, e₈) = ensure-eq-ok _ wrong_execution_mode _ e₇ in
    let (gas, e₉) = ensure-eq-ok _ wrong_validation_gas_limit _ e₈ in
    let (first, e₁₀) = ensure-eq-ok _ first_l2_block_mismatch _ e₉ in
    let is_31 : env.version.number ≡ 31 = ==→eq _ _ version in
    record {
      version_31 = is_31;
      old_root = context-some batch.previous_batch_hash _ there ∙ ap some (ok-injective e₁₀);
      no_base_fee = is_none-eq _ fee;
      same_number = ==→eq _ _ number;
      same_version = ==→eq _ _ copy ∙ is_31;
      is_scheme = post_interop _ (rw is_31 at validator);
      executes_verified = is_verify_execute-eq _ mode;
      unlimited = ==→eq _ _ gas;
      first_block = first_block_matches-FirstBlock _ _ first;
    }
  where
    post_interop : (b : Bool) → bool_eqb false b ≡ true → b ≡ false
    post_interop true e = cc
    post_interop false e = refl

-- The copies of the code hashes and of the bootloader's code are the environment's.
pub record SameCopies (run : VmRunWitnessInputData) (base : BaseSystemContracts) : Type 0 where
  pub same_default_aa : run.default_account_code_hash ≡ base.default_aa.hash
  pub same_emulator : run.evm_emulator_code_hash ≡ emulator_hash base.evm_emulator
  pub same_bootloader : concat run.bootloader_code ≡ base.bootloader.code

pub check_copies-SameCopies :
    (run : VmRunWitnessInputData) (base : BaseSystemContracts) {u : Unit {0}}
    → check_copies run base ≡ ok u
    → SameCopies run base
unfolding check_copies
check_copies-SameCopies run base e =
    let (account, e₁) = ensure-eq-ok _ default_account_mismatch _ e in
    let (emulator, e₂) = ensure-eq-ok _ evm_emulator_mismatch _ e₁ in
    let code = ensure-true _ bootloader_code_mismatch e₂ in
    record {
      same_default_aa = ==→eq _ _ account;
      same_emulator = option_eqb-eq _ _ emulator;
      same_bootloader = list_eqb-eq ◌==◌ ==→eq _ _ code;
    }
