-- ===== src/Vm/History/Manager.antt =====
-- crates/multivm/src/versions/vm_latest/old_vm/history_recorder.rs: the frame manager of the VM's
-- events and storage logs, rolled back.
use eravm_airbender_verifier.Common.{ℕ, ◌≤◌, ◌≡◌, refl, sym, ap, ◌∙◌, ok, >>=-eq-ok, ok-injective}
use eravm_airbender_verifier.Vm.History.{undo_history, rollback_to_timestamp}
use eravm_airbender_verifier.Vm.History.Framed.{
  framed_stack, Recorder, AppDataFrameManagerWithHistory, rollback_both,
}
use eravm_airbender_verifier.Vm.History.Rollback.{
  no_action, EndsBefore, Undoes, Records-Undoes, undo_history-later, rollback_to_timestamp-Records,
}
use eravm_airbender_verifier.Vm.History.Reversible.{framed_stack-Reversible}
use eravm_airbender_verifier.Vm.History.Steps.{
  Recorded, ManagerRuns, not_yet, and_then, and_back, Both, ManagerStep-Both,
}

module _ (T : Type 0) (delta timestamp : ℕ) where
  -- Both recorders are rolled back alike.
  Back : Recorder T delta → Recorder T delta → Type 0
  Back start last =
      rollback_to_timestamp (framed_stack T) last timestamp
      ≡ rollback_to_timestamp (framed_stack T) start timestamp

  Recorded-Back :
      (start last : Recorder T delta) → Recorded T delta timestamp start last → Back start last
  unfolding Back framed_stack-Reversible framed_stack rollback_to_timestamp Undoes
  Recorded-Back start last recorded =
      let (c, e, same) =
        Records-Undoes (framed_stack T) (framed_stack-Reversible T) delta timestamp start last
          recorded last.inner refl in
      e ∙ ap (λ c. undo_history (framed_stack T) timestamp c start.history) same

  later-Back :
      (before next : Recorder T delta) (later : ℕ)
      → timestamp ≤ later
      → rollback_to_timestamp (framed_stack T) before later ≡ ok next
      → Back next before
  unfolding Back framed_stack-Reversible framed_stack rollback_to_timestamp Undoes
  later-Back before next later late e =
      undo_history-later (framed_stack T) (framed_stack-Reversible T) delta timestamp later
        before.inner before.history next late e

  ManagerRuns-Back :
      (start last : AppDataFrameManagerWithHistory T delta)
      → ManagerRuns T delta timestamp start last
      → Back start.forward last.forward × Back start.rollback last.rollback
  unfolding Both Back rollback_both
  ManagerRuns-Back start _ not_yet = (refl, refl)
  ManagerRuns-Back start _ (and_then before next earlier step) =
      let (f, r) =
        ManagerStep-Both T delta timestamp before before next (no_action, no_action) step in
      let (f', r') = ManagerRuns-Back start before earlier in
      (
        Recorded-Back before.forward next.forward f ∙ f',
        Recorded-Back before.rollback next.rollback r ∙ r',
      )
  ManagerRuns-Back start _ (and_back before next later earlier late e) =
      let (f', r') = ManagerRuns-Back start before earlier in
      let (forward, e₁, e₂) =
        >>=-eq-ok (rollback_to_timestamp (framed_stack T) before.forward later) _ e in
      let (rollback, e₃, e₄) =
        >>=-eq-ok (rollback_to_timestamp (framed_stack T) before.rollback later) _ e₂ in
      let same = ok-injective e₄ in
      (
        rw (← ap (λ m. m.forward) same)
            (sym (later-Back before.forward forward later late e₁) ∙ f'),
        rw (← ap (λ m. m.rollback) same)
            (sym (later-Back before.rollback rollback later late e₃) ∙ r'),
      )

  recorder-Back :
      (start last : Recorder T delta)
      → Back start last
      → EndsBefore (framed_stack T) timestamp start.history
      → rollback_to_timestamp (framed_stack T) last timestamp ≡ ok start
  unfolding framed_stack-Reversible framed_stack Back
  recorder-Back start last back before =
      let (restored, e, same) =
        rollback_to_timestamp-Records (framed_stack T) (framed_stack-Reversible T) delta timestamp
          start start no_action before in
      back ∙ (e ∙ ap (λ c. ok (record { inner = c; history = start.history })) same)

  -- A rollback of the frame manager to a timestamp never panics and leaves exactly the manager that
  -- there was, with its history, after any run of pushes to either stack, new and merged frames and
  -- moves of a frame, none of them before the timestamp, and of rollbacks to that timestamp or a later
  -- one, where both histories ended before the timestamp. The run deletes no history.
  pub rollback_both-ManagerRuns :
      (start last : AppDataFrameManagerWithHistory T delta)
      → ManagerRuns T delta timestamp start last
      → EndsBefore (framed_stack T) timestamp start.forward.history
      → EndsBefore (framed_stack T) timestamp start.rollback.history
      → rollback_both T delta last timestamp ≡ ok start
  unfolding rollback_both Back
  rollback_both-ManagerRuns start last run forward_before rollback_before =
      let (f, r) = ManagerRuns-Back start last run in
      rw
        (
          recorder-Back start.forward last.forward f forward_before,
          recorder-Back start.rollback last.rollback r rollback_before,
        )
        refl
