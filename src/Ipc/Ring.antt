-- ===== src/Ipc/Ring.antt =====
-- kernel/src/ipc/channel/ringbuf.rs: sending and receiving through a channel's ring buffer.
-- `Kernel` has what `send` and `recv` read and change: the channels, the states of the processes,
-- the process that runs on the hart, the hart's reschedule flag and its run queue. Processes are
-- told apart by their pids. A transfer's `buf, len` is the list of the `len` bytes at `buf`.
pub mod Fifo
pub mod Refine
pub mod Wake
use slipper_kernel.Prelude.{
  ℕ, zero, suc, ◌+◌, ◌-◌, ◌%◌, ◌^◌, min, List, [], ◌∷◌, Option, none, some, Bool, true, false, not,
  ◌&&◌, ◌||◌, ltb, leb, ◌==◌, if◌then◌else◌, length, get_or, set, get_elem?,
}
use slipper_kernel.Core.Errno.{KResult, ok, err, inval, pipe, perm, busy}
use slipper_kernel.Ipc.Channel.{Channel, chan_max, chan_buf_size, is_client, clients_of, update_at}

pub data ProcState : Type 0 where
  free : ProcState
  ready : ProcState
  running : ProcState
  exited : ProcState
  waiting : ProcState

pub record Kernel : Type 0 where
  pub channels : List Channel
  pub proc_state : ℕ → ProcState
  pub current : Option ℕ
  pub need_resched : Bool
  pub run_queue : List ℕ

unfoldable pub set_state : ℕ → ProcState → (ℕ → ProcState) → ℕ → ProcState
set_state pid s states p = if p == pid then s else states p

abbrev pub running_pid : ℕ → ProcState → ℕ
running_pid pid running = pid
running_pid pid _ = 0

unfoldable pub current_pid : Kernel → ℕ
current_pid k = elim k.current [ none ↦ 0 | some pid ↦ running_pid pid (k.proc_state pid) ]

unfoldable pub pid_allowed : Channel → ℕ → Bool
pid_allowed ch pid = (pid == ch.owner_pid) || is_client pid (clients_of ch)

-- `(*p).wait_next = *wait_head; *wait_head = p` is a cons on the wait list. With no process on the
-- hart, where the code would write through a null pointer, nothing changes. The lists hold for a
-- process that is on no other wait list: one that a signal has woken is still on its list, and when
-- it waits again the code overwrites its only wait_next, which the lists of pids do not follow.
pub wait_enqueue : (ℕ → Channel → Channel) → ℕ → Kernel → Kernel
unfolding set_state
wait_enqueue add chan_id k = elim k.current [
  | none ↦ k
  | some pid ↦ record k {
    proc_state = set_state pid waiting k.proc_state;
    channels = update_at chan_id (add pid) k.channels;
  }
]

abbrev pub add_sender : ℕ → Channel → Channel
add_sender pid ch = record ch { send_wait = pid ∷ ch.send_wait }

abbrev pub add_receiver : ℕ → Channel → Channel
add_receiver pid ch = record ch { recv_wait = pid ∷ ch.recv_wait }

-- the loop of `wait_wake_all`
unfoldable pub wake_all : List ℕ → (ℕ → ProcState) → ℕ → ProcState
unfolding set_state
wake_all [] states = states
wake_all (pid ∷ rest) states = wake_all rest (set_state pid ready states)

-- `ch.tail.wrapping_sub(ch.head)`
abbrev pub used_bytes : Channel → ℕ
used_bytes ch = (ch.tail + 2 ^ 32 - ch.head) % 2 ^ 32

-- `CHAN_BUF_SIZE as u32 - ...`, which wraps
abbrev pub space : Channel → ℕ
space ch = (chan_buf_size + 2 ^ 32 - used_bytes ch) % 2 ^ 32

-- one turn of the loop of `send`
pub push : ℕ → Channel → Channel
push b ch = record ch {
  buf = set ch.buf (ch.tail % chan_buf_size) b;
  tail = (ch.tail + 1) % 2 ^ 32;
}

pub push_all : List ℕ → Channel → Channel
unfolding push
push_all [] ch = ch
push_all (b ∷ bs) ch = push_all bs (push b ch)

abbrev pub advance : Channel → Channel
advance ch = record ch { head = (ch.head + 1) % 2 ^ 32 }

-- The loop of `recv`, `n` turns of it: the bytes it stores, and the channel after.
pub pop_all : ℕ → Channel → List ℕ × Channel
pop_all zero ch = ([], ch)
pop_all (suc n) ch =
    let (bs, ch') = pop_all n (advance ch) in (get_or ch.buf (ch.head % chan_buf_size) 0 ∷ bs, ch')

abbrev pub put : ℕ → Channel → Kernel → Kernel
put chan_id ch k = record k { channels = update_at chan_id (λ old. ch) k.channels }

-- `if !wait.is_null() { wait_wake_all(wait); set_need_resched(...) }`, but for emptying the list
unfoldable pub woken : List ℕ → Kernel → Kernel
unfolding wake_all
woken [] k = k
woken (pid ∷ rest) k = record k {
  proc_state = wake_all (pid ∷ rest) k.proc_state;
  need_resched = true;
}

-- the end of `send`, on the channel as the loop left it
pub wake_receivers : ℕ → Channel → Kernel → Kernel
unfolding woken
wake_receivers chan_id ch k = woken ch.recv_wait (put chan_id (record ch { recv_wait = [] }) k)

-- the end of `recv`
pub wake_senders : ℕ → Channel → Kernel → Kernel
unfolding woken
wake_senders chan_id ch k = woken ch.send_wait (put chan_id (record ch { send_wait = [] }) k)

abbrev request_resched : Kernel → Kernel
request_resched k = record k { need_resched = true }

-- `sched_yield` is a parameter: it ends in the context switch of the assembly. `blocking` says
-- whether the caller passed a trap frame.
module _ (sched_yield : Kernel → Kernel) where
  pub send_on : ℕ → List ℕ → Bool → Kernel → Channel → KResult ℕ × Kernel
  unfolding current_pid pid_allowed wait_enqueue push_all wake_receivers
  send_on chan_id bytes blocking k ch =
      if not ch.used || ch.closed
      then (err pipe, k)
      else if not (pid_allowed ch (current_pid k))
      then (err perm, k)
      else if ltb (space ch) (length bytes)
      then (
        err busy,
        if blocking then sched_yield (request_resched (wait_enqueue add_sender chan_id k)) else k,
      )
      else (ok (length bytes), wake_receivers chan_id (push_all bytes ch) k)

  pub send : ℕ → List ℕ → Bool → Kernel → KResult ℕ × Kernel
  unfolding send_on
  send chan_id bytes blocking k =
      if leb chan_max chan_id then (err inval, k) else elim (get_elem? k.channels chan_id) [
        | none ↦ (err inval, k)
        | some ch ↦ send_on chan_id bytes blocking k ch
      ]

  -- the end of `recv`, `n` bytes to read
  abbrev pub recv_bytes : ℕ → ℕ → Kernel → Channel → KResult ℕ × List ℕ × Kernel
  recv_bytes chan_id n k ch =
      let (bytes, ch') = pop_all n ch in (ok n, bytes, wake_senders chan_id ch' k)

  -- The middle component of the result is the bytes stored at `buf`.
  pub recv_on : ℕ → ℕ → Bool → Kernel → Channel → KResult ℕ × List ℕ × Kernel
  unfolding current_pid pid_allowed wait_enqueue pop_all wake_senders
  recv_on chan_id len blocking k ch =
      if not ch.used || ch.closed
      then (err pipe, [], k)
      else if not (pid_allowed ch (current_pid k))
      then (err perm, [], k)
      else if used_bytes ch == 0
      then (
        ok 0,
        [],
        if blocking then sched_yield (request_resched (wait_enqueue add_receiver chan_id k)) else k,
      )
      else recv_bytes chan_id (min len (used_bytes ch)) k ch

  pub recv : ℕ → ℕ → Bool → Kernel → KResult ℕ × List ℕ × Kernel
  unfolding recv_on
  recv chan_id len blocking k =
      if leb chan_max chan_id then (err inval, [], k) else elim (get_elem? k.channels chan_id) [
        | none ↦ (err inval, [], k)
        | some ch ↦ recv_on chan_id len blocking k ch
      ]
