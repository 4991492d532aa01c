-- ===== src/Vm/History/Steps.antt =====
-- crates/multivm/src/versions/vm_latest/old_vm/history_recorder.rs: the operations of the frame
-- manager of the VM's events and storage logs, as actions of its two recorders.
use eravm_airbender_verifier.Common.{
  ℕ, zero, suc, ◌-◌, ◌≤◌, ◌≡◌, ap, ◌∙◌, Bool, inl, inr, List, [], ◌∷◌, length, ok, >>=-eq-ok,
  ok-injective, Bool-cases,
}
use eravm_airbender_verifier.Vm.History.{
  history_enabled, normalize_timestamp, apply_historic_record,
}
use eravm_airbender_verifier.Vm.History.Framed.{
  FramedStackEvent, push_item, pop_item, merge_frames, framed_stack, last_frame, current_frame,
  Recorder, act, push_to_frame, push_frame, merge_frame, pop_items, clear_frame, push_filtered,
  AppDataFrameManagerWithHistory, push_forward, push_rollback, push_frames, merge_both,
  move_rollback_to_forward, rollback_both,
}
use eravm_airbender_verifier.Vm.History.Rollback.{Records, one_action}

module _ (T : Type 0) (delta timestamp : ℕ) where
  abbrev pub Recorded : Recorder T delta → Recorder T delta → Type 0
  Recorded start last = Records (framed_stack T) delta timestamp start last

  act-Recorded :
      (start before last : Recorder T delta) (event : FramedStackEvent T) (time : ℕ)
      → timestamp ≤ normalize_timestamp delta time
      → Recorded start before
      → act T delta before event time ≡ ok last
      → Recorded start last
  unfolding act
  act-Recorded start before last event time late recorded e =
      let (done, e₁, e₂) =
        >>=-eq-ok (apply_historic_record (framed_stack T) history_enabled delta before event time) _
          e in
      one_action before last event done.0 time recorded late
        (e₁ ∙ ap (λ r. ok (done.0, r)) (ok-injective e₂))

  pop_items-Recorded :
      (count : ℕ) (start before last : Recorder T delta) (time : ℕ)
      → timestamp ≤ normalize_timestamp delta time
      → Recorded start before
      → pop_items T delta count before time ≡ ok last
      → Recorded start last
  unfolding pop_items
  pop_items-Recorded zero start before last time late recorded e =
      let same : before ≡ last = ok-injective e in rw (← same) recorded
  pop_items-Recorded (suc count) start before last time late recorded e =
      let (popped, e₁, e₂) = >>=-eq-ok (act T delta before pop_item time) _ e in
      pop_items-Recorded count start popped last time late
        (act-Recorded start before popped pop_item time late recorded e₁) e₂

  clear_frame-Recorded :
      (start before last : Recorder T delta) (time : ℕ)
      → timestamp ≤ normalize_timestamp delta time
      → Recorded start before
      → clear_frame T delta before time ≡ ok last
      → Recorded start last
  unfolding clear_frame framed_stack
  clear_frame-Recorded start before last time late recorded e =
      let (from, e₁, e₂) = >>=-eq-ok (last_frame before.inner.frame_start_indices) _ e in
      pop_items-Recorded (length before.inner.stack_data - from) start before last time late
        recorded e₂

  push_filtered-Recorded :
      (filter : T → Bool) (items : List T) (start before last : Recorder T delta) (time : ℕ)
      → timestamp ≤ normalize_timestamp delta time
      → Recorded start before
      → push_filtered T delta filter items before time ≡ ok last
      → Recorded start last
  unfolding push_filtered push_to_frame
  push_filtered-Recorded filter [] start before last time late recorded e =
      let same : before ≡ last = ok-injective e in rw (← same) recorded
  push_filtered-Recorded filter (x ∷ items) start before last time late recorded e =
      elim (Bool-cases (filter x)) [
        | inl kept ↦
            let (pushed, e₁, e₂) =
              >>=-eq-ok (act T delta before (push_item x) time) _ (rw kept at e) in
            push_filtered-Recorded filter items start pushed last time late
              (act-Recorded start before pushed (push_item x) time late recorded e₁) e₂
        | inr dropped ↦
            push_filtered-Recorded filter items start before last time late recorded
              (rw dropped at e)
      ]

  -- One operation of the manager that records, not before the timestamp. Deleting the history is not
  -- one of them: it discards what a rollback undoes.
  pub data ManagerStep (before next : AppDataFrameManagerWithHistory T delta) : Type 0 where
    forward_item :
        (x : T) (time : ℕ)
        → timestamp ≤ normalize_timestamp delta time
        → push_forward T delta before x time ≡ ok next
        → ManagerStep before next
    rollback_item :
        (x : T) (time : ℕ)
        → timestamp ≤ normalize_timestamp delta time
        → push_rollback T delta before x time ≡ ok next
        → ManagerStep before next
    new_frames :
        (time : ℕ)
        → timestamp ≤ normalize_timestamp delta time
        → push_frames T delta before time ≡ ok next
        → ManagerStep before next
    merged_frames :
        (time : ℕ)
        → timestamp ≤ normalize_timestamp delta time
        → merge_both T delta before time ≡ ok next
        → ManagerStep before next
    moved_items :
        (filter : T → Bool) (time : ℕ)
        → timestamp ≤ normalize_timestamp delta time
        → move_rollback_to_forward T delta before filter time ≡ ok next
        → ManagerStep before next

  -- Any number of operations, and of rollbacks to the timestamp or a later one.
  pub data ManagerRuns (start : AppDataFrameManagerWithHistory T delta)
      : AppDataFrameManagerWithHistory T delta → Type 0 where
    not_yet : ManagerRuns start start
    and_then :
        (before next : AppDataFrameManagerWithHistory T delta)
        → ManagerRuns start before
        → ManagerStep before next
        → ManagerRuns start next
    and_back :
        (before next : AppDataFrameManagerWithHistory T delta) (later : ℕ)
        → ManagerRuns start before
        → timestamp ≤ later
        → rollback_both T delta before later ≡ ok next
        → ManagerRuns start next

  unfoldable pub Both :
      AppDataFrameManagerWithHistory T delta → AppDataFrameManagerWithHistory T delta → Type 0
  Both start last = Recorded start.forward last.forward × Recorded start.rollback last.rollback

  pub ManagerStep-Both :
      (start before next : AppDataFrameManagerWithHistory T delta)
      → Both start before
      → ManagerStep before next
      → Both start next
  unfolding Both push_forward push_rollback push_frames merge_both move_rollback_to_forward
      push_to_frame push_frame merge_frame framed_stack
  ManagerStep-Both start before next (f, r) (forward_item x time late e) =
      let (forward, e₁, e₂) = >>=-eq-ok (act T delta before.forward (push_item x) time) _ e in
      let same = ok-injective e₂ in
      (
        rw (← ap (λ m. m.forward) same) (act-Recorded _ _ forward (push_item x) time late f e₁),
        rw (← ap (λ m. m.rollback) same) r,
      )
  ManagerStep-Both start before next (f, r) (rollback_item x time late e) =
      let (rollback, e₁, e₂) = >>=-eq-ok (act T delta before.rollback (push_item x) time) _ e in
      let same = ok-injective e₂ in
      (
        rw (← ap (λ m. m.forward) same) f,
        rw (← ap (λ m. m.rollback) same) (act-Recorded _ _ rollback (push_item x) time late r e₁),
      )
  ManagerStep-Both start before next (f, r) (new_frames time late e) =
      let (forward, e₁, e₂) = >>=-eq-ok (push_frame T delta before.forward time) _ e in
      let (rollback, e₃, e₄) = >>=-eq-ok (push_frame T delta before.rollback time) _ e₂ in
      let same = ok-injective e₄ in
      (
        rw (← ap (λ m. m.forward) same) (act-Recorded _ _ forward _ time late f e₁),
        rw (← ap (λ m. m.rollback) same) (act-Recorded _ _ rollback _ time late r e₃),
      )
  ManagerStep-Both start before next (f, r) (merged_frames time late e) =
      let (forward, e₁, e₂) = >>=-eq-ok (merge_frame T delta before.forward time) _ e in
      let (rollback, e₃, e₄) = >>=-eq-ok (merge_frame T delta before.rollback time) _ e₂ in
      let same = ok-injective e₄ in
      (
        rw (← ap (λ m. m.forward) same) (act-Recorded _ _ forward merge_frames time late f e₁),
        rw (← ap (λ m. m.rollback) same) (act-Recorded _ _ rollback merge_frames time late r e₃),
      )
  ManagerStep-Both start before next (f, r) (moved_items filter time late e) =
      let (items, e₁, e₂) = >>=-eq-ok (current_frame before.rollback.inner) _ e in
      let (forward, e₃, e₄) =
        >>=-eq-ok (push_filtered T delta filter items before.forward time) _ e₂ in
      let (rollback, e₅, e₆) = >>=-eq-ok (clear_frame T delta before.rollback time) _ e₄ in
      let same = ok-injective e₆ in
      (
        rw (← ap (λ m. m.forward) same)
            (push_filtered-Recorded filter items _ _ forward time late f e₃),
        rw (← ap (λ m. m.rollback) same) (clear_frame-Recorded _ _ rollback time late r e₅),
      )
