-- ===== src/Tests/Signals.antt =====
-- kernel/src/proc/signals.rs and scheduler/runqueue.rs on concrete inputs.
use slipper_kernel.Prelude.{
  ℕ, ◌*◌, ◌-◌, ◌^◌, ◌≡◌, refl, ap, ◌∙◌, arith, List, [], ◌∷◌, ◌++◌, replicate, none, some, true,
  false, ◌==◌, bit, bit-zero, bit-pow, max,
}
use slipper_kernel.Ipc.Ring.{ready, running, waiting}
use slipper_kernel.Proc.Frame.{zero_frame}
use slipper_kernel.Proc.Runqueue.{RunQueue, IsRunQueue, count, enqueue}
use slipper_kernel.Proc.Runqueue.Fair.{served, served_lem}
use slipper_kernel.Proc.Signals.{
  Process, unmapped, words, is_pid, posted, signal_send, sigaction, deliver, signal_check,
  sigreturn,
}
use slipper_kernel.Proc.Signals.Masks.{
  NeverMasks, here, next, sent, process_of, SignalReach-NeverMasks, sigaction-masks_stop,
}
use slipper_kernel.Proc.Signals.Deliver.{IsNext, signal_check-deliver, sigreturn-signal_check}
use slipper_kernel.Proc.Signals.Send.{signal_send-wakes}

-- A process that waits for input, with signal 15 pending and handled at 4096.
abbrev sleeper : Process
sleeper = record {
  pid = 4;
  state = waiting;
  pending_signals = 2 ^ 15;
  signal_mask = 0;
  signal_handlers = replicate 15 0 ++ (4096 ∷ replicate 16 0);
  saved_tf = zero_frame;
  in_signal_handler = false;
}

abbrev shell : Process
shell = record sleeper { pid = 3; state = running }

abbrev stop_mask : List ℕ
stop_mask = 4096 ∷ 2 ^ 19 ∷ []

abbrev two_ready : RunQueue
two_ready = record { queue = 7 ∷ 8 ∷ []; nr_ready = 2; on_rq = λ p. (p == 7) }

abbrev idle_queue : RunQueue
idle_queue = record { queue = []; nr_ready = 0; on_rq = λ p. false }

idle_queue-IsRunQueue : IsRunQueue idle_queue
unfolding IsRunQueue count
idle_queue-IsRunQueue = (refl, (λ p. refl))

zero_mask : NeverMasks 0
unfolding NeverMasks
zero_mask = (bit-zero 9, bit-zero 19)

SignalReach-NeverMasks_example : NeverMasks ((posted 2 sleeper).signal_mask)
SignalReach-NeverMasks_example =
    SignalReach-NeverMasks sleeper (posted 2 sleeper)
      (next sleeper sleeper (posted 2 sleeper) (here sleeper) (sent 2 sleeper)) zero_mask

sigaction-masks_stop_example :
    ((sigaction 15 (words stop_mask) unmapped sleeper).0 ≡ none)
    × (bit ((process_of (sigaction 15 (words stop_mask) unmapped sleeper)).signal_mask) 19
        ≡ max (bit 0 19) (bit (2 ^ 19) 19))
sigaction-masks_stop_example =
    sigaction-masks_stop 15 19 stop_mask unmapped sleeper (omega arith) (omega arith) (omega arith)
      (omega arith)

no_kill : bit (2 ^ 15) 9 ≡ 0
no_kill = bit-pow 15 9

fifteen-IsNext : IsNext 15 sleeper
unfolding IsNext
fifteen-IsNext = (
  omega arith,
  omega arith,
  bit-pow 15 15,
  bit-zero 15,
  (λ i low high.
      let other : (15 == i) ≡ false = ground arith in
      let unset : bit (2 ^ 15) i ≡ 0 = bit-pow 15 i ∙ rw other refl in
      ap (λ (b : ℕ). b * (1 - bit 0 i)) unset ∙ omega arith),
)

signal_check-deliver_example : signal_check sleeper zero_frame ≡ deliver 15 sleeper zero_frame
signal_check-deliver_example =
    signal_check-deliver sleeper zero_frame 15 (omega arith) no_kill refl fifteen-IsNext

entered : (signal_check sleeper zero_frame).process.in_signal_handler ≡ true
unfolding deliver
entered =
    rw (signal_check-deliver sleeper zero_frame 15 (omega arith) no_kill refl fifteen-IsNext) refl

sigreturn-signal_check_example :
    ((sigreturn (signal_check sleeper zero_frame).process (record zero_frame { sp = 8 })).1
      ≡ zero_frame)
    × ((sigreturn
          (signal_check sleeper zero_frame).process
          (record zero_frame { sp = 8 })).0.in_signal_handler
        ≡ false)
sigreturn-signal_check_example =
    sigreturn-signal_check sleeper zero_frame (record zero_frame { sp = 8 }) refl entered

signal_send-wakes_example :
    (signal_send 4 2 (shell ∷ (sleeper ∷ [])) idle_queue
      ≡ (none, (shell ∷ (posted 2 sleeper ∷ []), enqueue 4 idle_queue)))
    × ((posted 2 sleeper).state ≡ ready)
    × (bit (posted 2 sleeper).pending_signals 2 ≡ 1)
    × IsRunQueue (enqueue 4 idle_queue)
    × (count 4 ((enqueue 4 idle_queue).queue) ≡ 1)
unfolding is_pid
signal_send-wakes_example =
    signal_send-wakes (shell ∷ []) [] sleeper 2 idle_queue (refl, tt) refl (omega arith)
      (omega arith) refl idle_queue-IsRunQueue

served_lem_example : served 1 (λ i. 9 ∷ []) two_ready ≡ some 8
served_lem_example = served_lem 1 (λ i. 9 ∷ []) two_ready 8 refl
