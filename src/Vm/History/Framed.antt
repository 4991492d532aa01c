-- ===== src/Vm/History/Framed.antt =====
-- crates/multivm/src/versions/vm_latest/old_vm/history_recorder.rs: `FramedStack`, its recorder, and
-- `AppDataFrameManagerWithHistory`, with the history enabled.
use eravm_airbender_verifier.Common.{
  ℕ, zero, suc, ◌-◌, Bool, List, [], ◌∷◌, length, take, if◌then◌else◌, Outcome, ok, panic, ◌>>=◌,
  pop_from_empty,
}
use eravm_airbender_verifier.Vm.History.{
  WithHistory, history_enabled, HistoryRecorder, apply_historic_record, rollback_to_timestamp,
}

-- Both vectors have their last element at the head.
pub record FramedStack (T : Type 0) : Type 0 where
  pub stack_data : List T
  pub frame_start_indices : List ℕ

pub data FramedStackEvent (T : Type 0) : Type 0 where
  push_item : T → FramedStackEvent T
  pop_item : FramedStackEvent T
  push_frame_at : ℕ → FramedStackEvent T
  merge_frames : FramedStackEvent T

unfoldable pub default_stack : {T : Type 0} → FramedStack T
default_stack = record { stack_data = []; frame_start_indices = 0 ∷ [] }

abbrev pub with_data : {T : Type 0} → FramedStack T → List T → FramedStack T
with_data stack items = record {
  stack_data = items;
  frame_start_indices = stack.frame_start_indices;
}

abbrev pub with_frames : {T : Type 0} → FramedStack T → List ℕ → FramedStack T
with_frames stack frames = record { stack_data = stack.stack_data; frame_start_indices = frames }

abbrev pub pop_data :
    {T : Type 0}
    → FramedStack T
    → List T
    → Outcome ((FramedStackEvent T × Unit {0}) × FramedStack T)
pop_data stack [] = panic pop_from_empty
pop_data stack (x ∷ items) = ok ((push_item x, tt), with_data stack items)

abbrev pub pop_frames :
    {T : Type 0}
    → FramedStack T
    → List ℕ
    → Outcome ((FramedStackEvent T × Unit {0}) × FramedStack T)
pop_frames stack [] = panic pop_from_empty
pop_frames stack (i ∷ frames) = ok ((push_frame_at i, tt), with_frames stack frames)

unfoldable pub apply_framed :
    {T : Type 0}
    → FramedStack T
    → FramedStackEvent T
    → Outcome ((FramedStackEvent T × Unit {0}) × FramedStack T)
apply_framed stack (push_item x) = ok ((pop_item, tt), with_data stack (x ∷ stack.stack_data))
apply_framed stack pop_item = pop_data stack stack.stack_data
apply_framed stack (push_frame_at i) =
    ok ((merge_frames, tt), with_frames stack (i ∷ stack.frame_start_indices))
apply_framed stack merge_frames = pop_frames stack stack.frame_start_indices

unfoldable pub framed_stack : Type 0 → WithHistory
framed_stack T = record {
  State = FramedStack T;
  HistoryRecord = FramedStackEvent T;
  ReturnValue = Unit {0};
  apply_record = apply_framed;
}

abbrev pub last_frame : List ℕ → Outcome ℕ
last_frame [] = panic pop_from_empty
last_frame (i ∷ frames) = ok i

-- `&self.data[start..]`, the newest item first; the start is never past the end.
unfoldable pub current_frame : {T : Type 0} → FramedStack T → Outcome (List T)
current_frame stack = do
  start ← last_frame stack.frame_start_indices
  ok (take (length stack.stack_data - start) stack.stack_data)

module _ (T : Type 0) (delta : ℕ) where
  abbrev pub Recorder : Type 0
  Recorder = HistoryRecorder (framed_stack T)

  -- An action with its history enabled.
  unfoldable pub act : Recorder → FramedStackEvent T → ℕ → Outcome Recorder
  unfolding framed_stack apply_historic_record
  act recorder event timestamp =
      apply_historic_record (framed_stack T) history_enabled delta recorder event timestamp
      >>= λ done. ok done.1

  unfoldable pub push_to_frame : Recorder → T → ℕ → Outcome Recorder
  push_to_frame recorder x timestamp = act recorder (push_item x) timestamp

  unfoldable pub push_frame : Recorder → ℕ → Outcome Recorder
  unfolding framed_stack
  push_frame recorder timestamp =
      act recorder (push_frame_at (length recorder.inner.stack_data)) timestamp

  unfoldable pub merge_frame : Recorder → ℕ → Outcome Recorder
  merge_frame recorder timestamp = act recorder merge_frames timestamp

  -- The loop pops down to the frame's start: a given number of items.
  unfoldable pub pop_items : ℕ → Recorder → ℕ → Outcome Recorder
  pop_items zero recorder timestamp = ok recorder
  pop_items (suc count) recorder timestamp = do
    popped ← act recorder pop_item timestamp
    pop_items count popped timestamp

  unfoldable pub clear_frame : Recorder → ℕ → Outcome Recorder
  unfolding framed_stack
  clear_frame recorder timestamp = do
    start ← last_frame recorder.inner.frame_start_indices
    pop_items (length recorder.inner.stack_data - start) recorder timestamp

  unfoldable pub extend_frame : Recorder → List T → ℕ → Outcome Recorder
  extend_frame recorder [] timestamp = ok recorder
  extend_frame recorder (x ∷ items) timestamp = do
    pushed ← push_to_frame recorder x timestamp
    extend_frame pushed items timestamp

  pub record AppDataFrameManagerWithHistory : Type 0 where
    pub forward : Recorder
    pub rollback : Recorder

  unfoldable pub push_forward :
      AppDataFrameManagerWithHistory → T → ℕ → Outcome AppDataFrameManagerWithHistory
  push_forward manager item timestamp = do
    forward ← push_to_frame manager.forward item timestamp
    ok (record { forward = forward; rollback = manager.rollback })

  unfoldable pub push_rollback :
      AppDataFrameManagerWithHistory → T → ℕ → Outcome AppDataFrameManagerWithHistory
  push_rollback manager item timestamp = do
    rollback ← push_to_frame manager.rollback item timestamp
    ok (record { forward = manager.forward; rollback = rollback })

  unfoldable pub push_frames :
      AppDataFrameManagerWithHistory → ℕ → Outcome AppDataFrameManagerWithHistory
  push_frames manager timestamp = do
    forward ← push_frame manager.forward timestamp
    rollback ← push_frame manager.rollback timestamp
    ok (record { forward = forward; rollback = rollback })

  unfoldable pub merge_both :
      AppDataFrameManagerWithHistory → ℕ → Outcome AppDataFrameManagerWithHistory
  merge_both manager timestamp = do
    forward ← merge_frame manager.forward timestamp
    rollback ← merge_frame manager.rollback timestamp
    ok (record { forward = forward; rollback = rollback })

  -- The items of the frame that pass the filter, the newest first.
  unfoldable pub push_filtered : (T → Bool) → List T → Recorder → ℕ → Outcome Recorder
  push_filtered filter [] forward timestamp = ok forward
  push_filtered filter (x ∷ items) forward timestamp = do
    next ← (if filter x then push_to_frame forward x timestamp else ok forward)
    push_filtered filter items next timestamp

  unfoldable pub move_rollback_to_forward :
      AppDataFrameManagerWithHistory → (T → Bool) → ℕ → Outcome AppDataFrameManagerWithHistory
  unfolding framed_stack
  move_rollback_to_forward manager filter timestamp = do
    items ← current_frame manager.rollback.inner
    forward ← push_filtered filter items manager.forward timestamp
    rollback ← clear_frame manager.rollback timestamp
    ok (record { forward = forward; rollback = rollback })

  unfoldable pub rollback_both :
      AppDataFrameManagerWithHistory → ℕ → Outcome AppDataFrameManagerWithHistory
  unfolding framed_stack rollback_to_timestamp
  rollback_both manager timestamp = do
    forward ← rollback_to_timestamp (framed_stack T) manager.forward timestamp
    rollback ← rollback_to_timestamp (framed_stack T) manager.rollback timestamp
    ok (record { forward = forward; rollback = rollback })
