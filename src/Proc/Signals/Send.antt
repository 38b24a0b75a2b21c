-- ===== src/Proc/Signals/Send.antt =====
-- kernel/src/proc/signals.rs: signal_send and the run queue.
use slipper_kernel.Prelude.{
  ℕ, ◌<◌, ◌≡◌, refl, ap, ◌∙◌, arith, List, [], ◌∷◌, ◌++◌, none, true, false, All, ◌==◌, ◌||◌, leb,
  bit, bit-set_bit,
}
use slipper_kernel.Ipc.Ring.{ready, waiting}
use slipper_kernel.Proc.Runqueue.{RunQueue, IsRunQueue, count, enqueue, enqueue_lem}
use slipper_kernel.Proc.Runqueue.Fair.{count-enqueue}
use slipper_kernel.Proc.Signals.{Process, is_pid, is_waiting, posted, queued, post, signal_send}

post_lem :
    (front rest : List Process) (p : Process) (signal : ℕ) (rq : RunQueue)
    → All (λ (q : Process). is_pid p.pid q ≡ false) front
    → is_pid p.pid p ≡ true
    → post p.pid signal (front ++ (p ∷ rest)) rq
      ≡ (none, (front ++ (posted signal p ∷ rest), queued p rq))
unfolding post
post_lem [] rest p signal rq none_before found = rw found refl
post_lem (q ∷ front) rest p signal rq (other, none_before) found =
    rw (other, post_lem front rest p signal rq none_before found) refl

-- signal_send of a valid signal to a waiting process, the first with its pid among all processes,
-- succeeds: the signal is pending, the process is Ready, it is on the run queue exactly once, which
-- stays well formed, and no other process changes.
pub signal_send-wakes :
    (front rest : List Process) (p : Process) (signal : ℕ) (rq : RunQueue)
    → All (λ (q : Process). is_pid p.pid q ≡ false) front
    → is_pid p.pid p ≡ true
    → 0 < signal
    → signal < 32
    → p.state ≡ waiting
    → IsRunQueue rq
    → (signal_send p.pid signal (front ++ (p ∷ rest)) rq
        ≡ (none, (front ++ (posted signal p ∷ rest), enqueue p.pid rq)))
      × ((posted signal p).state ≡ ready)
      × (bit (posted signal p).pending_signals signal ≡ 1)
      × IsRunQueue (enqueue p.pid rq)
      × (count p.pid ((enqueue p.pid rq).queue) ≡ 1)
unfolding signal_send
signal_send-wakes front rest p signal rq none_before found low high asleep well_formed =
    let valid : ((signal == 0) || leb 32 signal) ≡ false = ground arith in
    let waits : is_waiting p.state ≡ true = ap is_waiting asleep ∙ unfold is_waiting in refl in
    (
      rw valid (post_lem front rest p signal rq none_before found ∙ unfold queued in rw waits refl),
      (unfold posted in rw waits refl),
      (unfold posted in
          rw waits (
            bit-set_bit p.pending_signals signal signal
            ∙ (let same : (signal == signal) ≡ true = ground arith in rw same refl))),
      (enqueue_lem p.pid rq well_formed).0,
      count-enqueue p.pid rq well_formed,
    )
