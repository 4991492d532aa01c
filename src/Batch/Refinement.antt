-- ===== src/Batch/Refinement.antt =====
-- crates/airbender_verifier/src/lib.rs: `execute_tx` and `execute_vm` accept exactly the runs that the
-- relations on the VM's states describe.
use eravm_airbender_verifier.Common.{
  ◌≡◌, refl, sym, ◌∙◌, ap, Bool, true, false, List, [], ◌∷◌, ok, ensure, ◌>>◌, >>=-eq-ok,
  ensure-eq-ok, ok-injective, last_block_not_empty, compression_failed, batch_not_finalized,
}
use eravm_airbender_verifier.Batch.Version.{ProtocolVersionId}
use eravm_airbender_verifier.Batch.Env.{L2BlockExecutionData, from_l2_block_data, PubdataParams}
use eravm_airbender_verifier.Batch.Machine.{
  ExecutionResult, FinishedL1Batch, VmInterface, ensure_not_halted, is_success, last_block_is_empty,
  execute_uncompressed, after_compressed, execute_tx, execute_txs, execute_blocks, execute_vm,
}
use eravm_airbender_verifier.Batch.Transactions.{
  RollsBack, ensure_not_halted-IsKept, IsKept-ensure_not_halted, Executes, compressed, uncompressed,
  ExecutesAll, no_more, one_more, ExecutesBlocks, no_block, last_block, next_block, Runs, runs,
}

module _ (vm : VmInterface) (laws : RollsBack vm) where
  second_run-Executes :
      (tx : vm.Transaction) (state ran next : vm.State) (failed : ExecutionResult)
      (second : (Bool × ExecutionResult) × vm.State)
      → vm.execute_transaction_with_bytecode_compression (vm.make_snapshot state) tx true
        ≡ ok ((false, failed), ran)
      → vm.execute_transaction_with_bytecode_compression state tx false ≡ ok second
      → (ensure second.0.0 compression_failed >> (ensure_not_halted second.0.1 >> ok second.1))
        ≡ ok next
      → Executes vm tx state next
  second_run-Executes tx state ran next failed ((true, result), after) first again e =
      let (u, kept, same) = >>=-eq-ok (ensure_not_halted result) _ e in
      uncompressed failed result ran first
        (again ∙ ap (λ s. ok ((true, result), s)) (ok-injective same))
        (ensure_not_halted-IsKept result kept)
  second_run-Executes tx state ran next failed ((false, result), after) first again e = cc

  after_compressed-Executes :
      (tx : vm.Transaction) (state next : vm.State) (ran : (Bool × ExecutionResult) × vm.State)
      → vm.execute_transaction_with_bytecode_compression (vm.make_snapshot state) tx true ≡ ok ran
      → after_compressed vm tx ran ≡ ok next
      → Executes vm tx state next
  unfolding after_compressed execute_uncompressed
  after_compressed-Executes tx state next ((true, result), ran) first e =
      let (u, e₁, e₂) = >>=-eq-ok (ensure_not_halted result) _ e in
      compressed result ran first (ensure_not_halted-IsKept result e₁) (ok-injective e₂)
  after_compressed-Executes tx state next ((false, failed), ran) first e =
      let back = laws.rollback-execute state tx (false, failed) ran first in
      let (second, again, e₂) =
        >>=-eq-ok (vm.execute_transaction_with_bytecode_compression state tx false) _
          (rw back at e) in
      second_run-Executes tx state ran next failed second first again e₂

  pub execute_tx-Executes :
      (tx : vm.Transaction) (state next : vm.State)
      → execute_tx vm tx state ≡ ok next
      → Executes vm tx state next
  unfolding execute_tx
  execute_tx-Executes tx state next e =
      let (ran, e₁, e₂) =
        >>=-eq-ok
          (vm.execute_transaction_with_bytecode_compression (vm.make_snapshot state) tx true) _ e in
      after_compressed-Executes tx state next ran e₁ e₂

  pub Executes-execute_tx :
      (tx : vm.Transaction) (state next : vm.State)
      → Executes vm tx state next
      → execute_tx vm tx state ≡ ok next
  unfolding execute_tx after_compressed execute_uncompressed
  Executes-execute_tx tx state next (compressed result ran first kept popped) =
      rw (first, IsKept-ensure_not_halted result kept, popped)
  Executes-execute_tx tx state next (uncompressed failed result ran first second kept) = rw (
    first,
    laws.rollback-execute state tx (false, failed) ran first,
    second,
    IsKept-ensure_not_halted result kept,
  )

  execute_txs-ExecutesAll :
      (txs : List vm.Transaction) (state last : vm.State)
      → execute_txs vm txs state ≡ ok last
      → ExecutesAll vm txs state last
  unfolding execute_txs
  execute_txs-ExecutesAll [] state last e = rw (← ok-injective e) (no_more state)
  execute_txs-ExecutesAll (tx ∷ txs) state last e =
      let (next, e₁, e₂) = >>=-eq-ok (execute_tx vm tx state) _ e in
      one_more tx txs state next last (execute_tx-Executes tx state next e₁)
        (execute_txs-ExecutesAll txs next last e₂)

  ExecutesAll-execute_txs :
      (txs : List vm.Transaction) (state last : vm.State)
      → ExecutesAll vm txs state last
      → execute_txs vm txs state ≡ ok last
  unfolding execute_txs
  ExecutesAll-execute_txs _ _ _ (no_more state) = refl
  ExecutesAll-execute_txs _ _ _ (one_more tx txs state next last here there) =
      rw (Executes-execute_tx tx state next here, ExecutesAll-execute_txs txs next last there)

  execute_blocks-ExecutesBlocks :
      (blocks : List (L2BlockExecutionData vm.Transaction)) (state last : vm.State)
      → execute_blocks vm blocks state ≡ ok last
      → ExecutesBlocks vm blocks state last
  unfolding execute_blocks
  execute_blocks-ExecutesBlocks [] state last e = rw (← ok-injective e) (no_block state)
  execute_blocks-ExecutesBlocks (block ∷ []) state last e =
      rw (← ok-injective e) (last_block block state)
  execute_blocks-ExecutesBlocks (block ∷ next ∷ blocks) state last e =
      let (ran, e₁, e₂) = >>=-eq-ok (execute_txs vm block.txs state) _ e in
      let (started, e₃, e₄) =
        >>=-eq-ok (vm.start_new_l2_block ran (from_l2_block_data next)) _ e₂ in
      next_block block next blocks state ran started last
        (execute_txs-ExecutesAll block.txs state ran e₁) e₃
        (execute_blocks-ExecutesBlocks (next ∷ blocks) started last e₄)

  ExecutesBlocks-execute_blocks :
      (blocks : List (L2BlockExecutionData vm.Transaction)) (state last : vm.State)
      → ExecutesBlocks vm blocks state last
      → execute_blocks vm blocks state ≡ ok last
  unfolding execute_blocks
  ExecutesBlocks-execute_blocks _ _ _ (no_block state) = refl
  ExecutesBlocks-execute_blocks _ _ _ (last_block block state) = refl
  ExecutesBlocks-execute_blocks _ _ _
        (next_block block next blocks state ran started last txs start rest) =
      rw (
        ExecutesAll-execute_txs block.txs state ran txs,
        start,
        ExecutesBlocks-execute_blocks (next ∷ blocks) started last rest,
      )

  -- Where a rollback restores the state that a snapshot was made of, the batch runs to an output
  -- exactly where the last block has no transactions, every other block's transactions run in order,
  -- each kept with its bytecodes compressed or, where that failed, run again from the state before it
  -- and kept without, no transaction halts, every next block starts, and the batch's tip succeeds.
  pub execute_vm-Runs :
      (blocks : List (L2BlockExecutionData vm.Transaction)) (state : vm.State)
      (pubdata_params : PubdataParams) (protocol_version : ProtocolVersionId)
      (finished : FinishedL1Batch)
      → (execute_vm vm blocks state pubdata_params protocol_version ≡ ok finished
          → Runs vm blocks state pubdata_params protocol_version finished)
        × (Runs vm blocks state pubdata_params protocol_version finished
            → execute_vm vm blocks state pubdata_params protocol_version ≡ ok finished)
  unfolding execute_vm
  execute_vm-Runs blocks state pubdata_params protocol_version finished = (
    λ e.
        let (empty, e₁) = ensure-eq-ok (last_block_is_empty blocks) last_block_not_empty _ e in
        let (last, e₂, e₃) = >>=-eq-ok (execute_blocks vm blocks state) _ e₁ in
        let (out, e₄, e₅) = >>=-eq-ok (vm.finish_batch last pubdata_params protocol_version) _ e₃ in
        let (tip, e₆) =
          ensure-eq-ok (is_success out.block_tip_execution_result) batch_not_finalized _ e₅ in
        let same : out ≡ finished = ok-injective e₆ in
        runs empty last (execute_blocks-ExecutesBlocks blocks state last e₂) (e₄ ∙ ap ok same)
          (ap (λ o. is_success o.block_tip_execution_result) (sym same) ∙ tip),
    elim [
      | runs empty last blocks_run finish tip ↦
          rw (empty, ExecutesBlocks-execute_blocks blocks state last blocks_run, finish, tip)
    ],
  )
