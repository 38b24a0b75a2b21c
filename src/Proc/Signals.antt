-- ===== src/Proc/Signals.antt =====
-- kernel/src/proc/signals.rs. `Process` has the fields of `Proc` that signals read and change. A user
-- pointer is null, one that translate does not find, or the words that it points to; a call gives
-- its error, the words it writes behind the second pointer, and the process after. That signal_check
-- calls exit and sets the hart's reschedule flag is the exit code in its result.
pub mod Masks
pub mod Deliver
pub mod Send
use slipper_kernel.Prelude.{
  ℕ, zero, suc, ◌+◌, ◌-◌, ◌%◌, ◌^◌, List, [], ◌∷◌, Option, none, some, Bool, true, false, not, ◌&&◌,
  ◌||◌, leb, ◌==◌, if◌then◌else◌, get_or, set, bit_and, bit_or, bit_not, test_bit, set_bit,
  clear_bit,
}
use slipper_kernel.Core.Errno.{Errno, inval, no_ent}
use slipper_kernel.Ipc.Ring.{ProcState, free, ready, running, exited, waiting}
use slipper_kernel.Proc.Frame.{TrapFrame}
use slipper_kernel.Proc.Runqueue.{RunQueue, enqueue}

abbrev pub sig_kill : ℕ
sig_kill = 9

abbrev pub sig_stop : ℕ
sig_stop = 19

pub record Process : Type 0 where
  pub pid : ℕ
  pub state : ProcState
  pub pending_signals : ℕ
  pub signal_mask : ℕ
  pub signal_handlers : List ℕ
  pub saved_tf : TrapFrame
  pub in_signal_handler : Bool

unfoldable pub is_free : ProcState → Bool
is_free free = true
is_free ready = false
is_free running = false
is_free exited = false
is_free waiting = false

unfoldable pub is_waiting : ProcState → Bool
is_waiting free = false
is_waiting ready = false
is_waiting running = false
is_waiting exited = false
is_waiting waiting = true

-- the list of all processes, and whether `p` is the one that by_pid looks for
unfoldable pub is_pid : ℕ → Process → Bool
unfolding is_free
is_pid pid p = (p.pid == pid) && not (is_free p.state)

-- the signal pending, and the process woken
unfoldable pub posted : ℕ → Process → Process
unfolding is_waiting
posted signal p =
    let q : Process = record p { pending_signals = set_bit p.pending_signals signal } in
    if is_waiting p.state then record q { state = ready } else q

unfoldable pub queued : Process → RunQueue → RunQueue
unfolding is_waiting
queued p rq = if is_waiting p.state then enqueue p.pid rq else rq

-- by_pid, and what signal_send does with the process it gives
unfoldable pub post : ℕ → ℕ → List Process → RunQueue → Option Errno × (List Process × RunQueue)
unfolding is_pid posted queued
post pid signal [] rq = (some no_ent, ([], rq))
post pid signal (p ∷ rest) rq =
    let (e, (rest', rq')) = post pid signal rest rq in
    if is_pid pid p then (none, (posted signal p ∷ rest, queued p rq)) else (e, (p ∷ rest', rq'))

unfoldable pub signal_send :
    ℕ → ℕ → List Process → RunQueue → Option Errno × (List Process × RunQueue)
unfolding post
signal_send pid signal procs rq =
    if (signal == 0) || leb 32 signal then (some inval, (procs, rq)) else post pid signal procs rq

pub data Pointer : Type 0 where
  null : Pointer
  unmapped : Pointer
  words : List ℕ → Pointer

unfoldable pub is_mapped : Pointer → Bool
is_mapped null = false
is_mapped unmapped = false
is_mapped (words ws) = true

-- the new action of sigaction: the handler, and the mask behind it
unfoldable pub set_action : ℕ → Pointer → Process → Option Errno × Process
set_action signum null p = (none, p)
set_action signum unmapped p = (some inval, p)
set_action signum (words ws) p = (
  none,
  record p {
    signal_handlers = set p.signal_handlers signum (get_or ws 0 0);
    signal_mask = bit_or p.signal_mask (get_or ws 1 0 % 2 ^ 32);
  },
)

-- The array at `oldact` does not overlap the one at `act`, which the code reads after it has written
-- the old action.
unfoldable pub sigaction : ℕ → Pointer → Pointer → Process → Option Errno × (List ℕ × Process)
unfolding set_action is_mapped
sigaction signum act oldact p =
    if (signum == 0) || leb 32 signum || (signum == sig_kill) || (signum == sig_stop)
    then (some inval, ([], p))
    else let old =
        if is_mapped oldact then get_or p.signal_handlers signum 0 ∷ 0 ∷ 0 ∷ 0 ∷ [] else [] in
      let (e, q) = set_action signum act p in (e, (old, q))

-- `(1u32 << SIG_KILL) | (1u32 << SIG_STOP)`
abbrev pub protected : ℕ
protected = bit_or (2 ^ sig_kill) (2 ^ sig_stop)

-- the new mask of sigprocmask, or none for an unknown `how`
unfoldable pub new_signal_mask : ℕ → ℕ → ℕ → Option ℕ
new_signal_mask how mask new_mask =
    let allowed = bit_and new_mask (bit_not 32 protected) in
    if how == 0
    then some (bit_or mask allowed)
    else if how == 1
    then some (bit_and mask (bit_not 32 allowed))
    else if how == 2
    then some allowed
    else none

unfoldable pub set_mask : Option ℕ → Process → Option Errno × Process
set_mask none p = (some inval, p)
set_mask (some mask) p = (none, record p { signal_mask = mask })

unfoldable pub change_mask : ℕ → Pointer → Process → Option Errno × Process
unfolding set_mask new_signal_mask
change_mask how null p = (none, p)
change_mask how unmapped p = (some inval, p)
change_mask how (words ws) p =
    set_mask (new_signal_mask how p.signal_mask (get_or ws 0 0 % 2 ^ 32)) p

unfoldable pub sigprocmask : ℕ → Pointer → Pointer → Process → Option Errno × (List ℕ × Process)
unfolding change_mask is_mapped
sigprocmask how set oldset p =
    let old = if is_mapped oldset then p.signal_mask ∷ [] else [] in
    let (e, q) = change_mask how set p in (e, (old, q))

unfoldable pub sigreturn : Process → TrapFrame → Process × TrapFrame
sigreturn p tf =
    if not p.in_signal_handler
    then (p, tf)
    else (record p { in_signal_handler = false }, p.saved_tf)

pub record Checked : Type 0 where
  pub process : Process
  pub frame : TrapFrame
  pub exit_code : Option ℕ

abbrev pub checked : Process → TrapFrame → Option ℕ → Checked
checked p tf code = record { process = p; frame = tf; exit_code = code }

-- `for i in i..i + left`, or 0
unfoldable pub lowest : ℕ → ℕ → ℕ → ℕ
lowest pending i zero = 0
lowest pending i (suc left) =
    let rest = lowest pending (i + 1) left in if test_bit pending i then i else rest

-- the frame with which the handler is entered
unfoldable pub handler_frame : ℕ → ℕ → TrapFrame → TrapFrame
handler_frame handler signum tf = record tf {
  sepc = handler;
  a0 = signum;
  sp = bit_and ((tf.sp + (2 ^ 64 - 256)) % 2 ^ 64) (bit_not 64 15);
}

-- signal_check from `Clear the pending bit` on
unfoldable pub deliver : ℕ → Process → TrapFrame → Checked
unfolding handler_frame
deliver signum p tf =
    let q : Process = record p { pending_signals = clear_bit 32 p.pending_signals signum } in
    let handler = get_or p.signal_handlers signum 0 in
    if handler == 0
    then checked q tf (some (128 + signum))
    else if handler == 1
    then checked q tf none
    else checked (record q { saved_tf = tf; in_signal_handler = true })
        (handler_frame handler signum tf) none

unfoldable pub signal_check : Process → TrapFrame → Checked
unfolding lowest deliver
signal_check p tf =
    if test_bit p.pending_signals sig_kill
    then checked (record p { pending_signals = clear_bit 32 p.pending_signals sig_kill }) tf
        (some (128 + sig_kill))
    else if p.in_signal_handler
    then checked p tf none
    else let pending = bit_and p.pending_signals (bit_not 32 p.signal_mask) in
      let signum = lowest pending 1 31 in
      if (pending == 0) || (signum == 0) then checked p tf none else deliver signum p tf
