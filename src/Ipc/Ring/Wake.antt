-- ===== src/Ipc/Ring/Wake.antt =====
-- kernel/src/ipc/channel/ringbuf.rs: refusals, waiting and waking, and the invariant of the table.
use slipper_kernel.Prelude.{
  ℕ, ◌+◌, ◌≤◌, ◌<◌, min, ◌≡◌, refl, arith, List, [], ◌∷◌, length, get_elem?, some, Bool, true,
  false, not, ◌||◌, ltb, leb, ◌==◌, if◌then◌else◌, All, Bool-cases, Option-cases, ◌⊎◌, inl, inr,
}
use slipper_kernel.Core.Errno.{err, pipe, perm}
use slipper_kernel.Ipc.Channel.{Channel, chan_max, chan_buf_size}
use slipper_kernel.Ipc.Channel.Table.{All-update_at, All-get_elem?}
use slipper_kernel.Ipc.Ring.{
  Kernel, ProcState, ready, set_state, wake_all, woken, pid_allowed, current_pid, send, recv,
  send_on, recv_on, used_bytes, space, push_all, pop_all, put, wake_receivers, wake_senders,
  wait_enqueue, add_sender, add_receiver,
}
use slipper_kernel.Ipc.Ring.Fifo.{IsRing, push_all-IsRing, pop_all-IsRing}

-- `pid` is on the list
unfoldable pub Waits : ℕ → List ℕ → Type 0
Waits pid [] = ⊥
Waits pid (p ∷ rest) = (p ≡ pid) ⊎ Waits pid rest

wake_all_others :
    (waiters : List ℕ) (states : ℕ → ProcState) (pid : ℕ)
    → states pid ≡ ready
    → wake_all waiters states pid ≡ ready
unfolding wake_all set_state
wake_all_others [] states pid h = h
wake_all_others (p ∷ rest) states pid h = elim (Bool-cases (pid == p)) [
  | inl same ↦ wake_all_others rest (set_state p ready states) pid (rw same refl)
  | inr other ↦ wake_all_others rest (set_state p ready states) pid (rw other h)
]

wake_all_ready :
    (waiters : List ℕ) (states : ℕ → ProcState) (pid : ℕ)
    → Waits pid waiters
    → wake_all waiters states pid ≡ ready
unfolding wake_all set_state Waits
wake_all_ready [] states pid m = absurd m
wake_all_ready (p ∷ rest) states pid (inl e) =
    let same : (pid == p) ≡ true = ground arith in
    wake_all_others rest (set_state p ready states) pid (rw same refl)
wake_all_ready (p ∷ rest) states pid (inr m) = wake_all_ready rest (set_state p ready states) pid m

-- Every process on the list is marked ready, and the hart is asked to reschedule; the run queue,
-- from which the scheduler takes the next process, is left as it was.
pub woken_lem :
    (waiters : List ℕ) (k : Kernel) (pid : ℕ)
    → Waits pid waiters
    → ((woken waiters k).proc_state pid ≡ ready)
      × ((woken waiters k).need_resched ≡ true)
      × ((woken waiters k).run_queue ≡ k.run_queue)
unfolding woken Waits
woken_lem [] k pid m = absurd m
woken_lem (p ∷ rest) k pid m = (wake_all_ready (p ∷ rest) k.proc_state pid m, refl, refl)

-- A process that is neither the owner nor a client gets `Perm` from `send` and `recv`, however it
-- calls them, and changes and reads nothing.
pub outsider_refused :
    (yield : Kernel → Kernel) (chan_id len : ℕ) (bytes : List ℕ) (blocking : Bool) (k : Kernel)
    (ch : Channel)
    → chan_id < chan_max
    → get_elem? k.channels chan_id ≡ some ch
    → ch.used ≡ true
    → ch.closed ≡ false
    → pid_allowed ch (current_pid k) ≡ false
    → (send yield chan_id bytes blocking k ≡ (err perm, k))
      × (recv yield chan_id len blocking k ≡ (err perm, [], k))
unfolding send send_on recv recv_on
outsider_refused yield chan_id len bytes blocking k ch in_range here u c a =
    let ok_id : leb chan_max chan_id ≡ false = ground arith in
    (rw (ok_id, here, u, c, a), rw (ok_id, here, u, c, a))

-- A closed or unused channel answers `Pipe` to everyone.
pub closed_refused :
    (yield : Kernel → Kernel) (chan_id len : ℕ) (bytes : List ℕ) (blocking : Bool) (k : Kernel)
    (ch : Channel)
    → chan_id < chan_max
    → get_elem? k.channels chan_id ≡ some ch
    → (not ch.used || ch.closed) ≡ true
    → (send yield chan_id bytes blocking k ≡ (err pipe, k))
      × (recv yield chan_id len blocking k ≡ (err pipe, [], k))
unfolding send send_on recv recv_on
closed_refused yield chan_id len bytes blocking k ch in_range here c =
    let ok_id : leb chan_max chan_id ≡ false = ground arith in
    (rw (ok_id, here, c), rw (ok_id, here, c))

-- the invariant of `G_CHANNELS`
unfoldable pub AllRings : Kernel → Type 0
AllRings k = All IsRing k.channels

channels-woken : (waiters : List ℕ) (k : Kernel) → AllRings k → AllRings (woken waiters k)
unfolding woken AllRings
channels-woken [] k h = h
channels-woken (p ∷ rest) k h = h

put-AllRings :
    (chan_id : ℕ) (ch : Channel) (k : Kernel) → IsRing ch → AllRings k → AllRings (put chan_id ch k)
unfolding AllRings
put-AllRings chan_id ch k r h = All-update_at IsRing k.channels chan_id (λ c. ch) (λ c hc. r) h

wait_enqueue-AllRings :
    (add : ℕ → Channel → Channel) (chan_id : ℕ) (k : Kernel)
    → ((pid : ℕ) (ch : Channel) → IsRing ch → IsRing (add pid ch))
    → AllRings k
    → AllRings (wait_enqueue add chan_id k)
unfolding AllRings wait_enqueue
wait_enqueue-AllRings add chan_id k keep h = elim (Option-cases k.current) [
  | inl nobody ↦ rw nobody h
  | inr (pid, e) ↦ rw e (All-update_at IsRing k.channels chan_id (add pid) (keep pid) h)
]

wake_receivers-AllRings :
    (chan_id : ℕ) (ch : Channel) (k : Kernel)
    → IsRing ch
    → AllRings k
    → AllRings (wake_receivers chan_id ch k)
unfolding wake_receivers IsRing
wake_receivers-AllRings chan_id ch k r h =
    let ch' = record ch { recv_wait = [] } in
    channels-woken ch.recv_wait (put chan_id ch' k) (put-AllRings chan_id ch' k r h)

wake_senders-AllRings :
    (chan_id : ℕ) (ch : Channel) (k : Kernel)
    → IsRing ch
    → AllRings k
    → AllRings (wake_senders chan_id ch k)
unfolding wake_senders IsRing
wake_senders-AllRings chan_id ch k r h =
    let ch' = record ch { send_wait = [] } in
    channels-woken ch.send_wait (put chan_id ch' k) (put-AllRings chan_id ch' k r h)

yielded-AllRings :
    (yield : Kernel → Kernel) (blocking : Bool) (k k' : Kernel)
    → ((k : Kernel) → AllRings k → AllRings (yield k))
    → AllRings k
    → AllRings k'
    → AllRings (if blocking then yield (record k' { need_resched = true }) else k)
unfolding AllRings
yielded-AllRings yield true k k' keep h h' = keep (record k' { need_resched = true }) h'
yielded-AllRings yield false k k' keep h h' = h

send_on-AllRings :
    (yield : Kernel → Kernel) (chan_id : ℕ) (bytes : List ℕ) (blocking : Bool) (k : Kernel)
    (ch : Channel)
    → ((k : Kernel) → AllRings k → AllRings (yield k))
    → IsRing ch
    → AllRings k
    → AllRings ((send_on yield chan_id bytes blocking k ch).1)
unfolding send_on IsRing
send_on-AllRings yield chan_id bytes blocking k ch keep r h =
    elim (Bool-cases (not ch.used || ch.closed)) [
      | inl shut ↦ rw shut h
      | inr open_ch ↦ elim (Bool-cases (not (pid_allowed ch (current_pid k)))) [
        | inl denied ↦ rw (open_ch, denied) h
        | inr allowed ↦ elim (Bool-cases (ltb (space ch) (length bytes))) [
          | inl full ↦
              rw (open_ch, allowed, full)
                (yielded-AllRings yield blocking k (wait_enqueue add_sender chan_id k) keep h
                  (wait_enqueue-AllRings add_sender chan_id k (λ pid c hc. hc) h))
          | inr fits ↦
              let (hl, hh, ht, hu) = r in
              let room : used_bytes ch + length bytes ≤ chan_buf_size = ground arith in
              rw (open_ch, allowed, fits)
                (wake_receivers-AllRings chan_id (push_all bytes ch) k
                  (push_all-IsRing bytes ch r room) h)
        ]
      ]
    ]

recv_on-AllRings :
    (yield : Kernel → Kernel) (chan_id len : ℕ) (blocking : Bool) (k : Kernel) (ch : Channel)
    → ((k : Kernel) → AllRings k → AllRings (yield k))
    → IsRing ch
    → AllRings k
    → AllRings ((recv_on yield chan_id len blocking k ch).2)
unfolding recv_on IsRing
recv_on-AllRings yield chan_id len blocking k ch keep r h =
    elim (Bool-cases (not ch.used || ch.closed)) [
      | inl shut ↦ rw shut h
      | inr open_ch ↦ elim (Bool-cases (not (pid_allowed ch (current_pid k)))) [
        | inl denied ↦ rw (open_ch, denied) h
        | inr allowed ↦ elim (Bool-cases (used_bytes ch == 0)) [
          | inl none_left ↦
              rw (open_ch, allowed, none_left)
                (yielded-AllRings yield blocking k (wait_enqueue add_receiver chan_id k) keep h
                  (wait_enqueue-AllRings add_receiver chan_id k (λ pid c hc. hc) h))
          | inr some_left ↦
              let n = min len (used_bytes ch) in
              rw (open_ch, allowed, some_left)
                (wake_senders-AllRings chan_id ((pop_all n ch).1) k
                  (pop_all-IsRing n ch r (omega arith)) h)
        ]
      ]
    ]

-- If what runs while a process waits keeps every channel's indices and buffer well formed, so do
-- `send` and `recv`, on every branch: the buffer keeps its size and never holds more than it.
pub send-recv-AllRings :
    (yield : Kernel → Kernel) (chan_id len : ℕ) (bytes : List ℕ) (blocking : Bool) (k : Kernel)
    → ((k : Kernel) → AllRings k → AllRings (yield k))
    → AllRings k
    → AllRings ((send yield chan_id bytes blocking k).1)
      × AllRings ((recv yield chan_id len blocking k).2)
unfolding send recv AllRings
send-recv-AllRings yield chan_id len bytes blocking k keep h =
    elim (Bool-cases (leb chan_max chan_id)) [
      | inl out ↦ rw out (h, h)
      | inr fine ↦ elim (Option-cases (get_elem? k.channels chan_id)) [
        | inl missing ↦ rw (fine, missing) (h, h)
        | inr (ch, here) ↦
            let r = All-get_elem? IsRing k.channels chan_id ch h here in
            rw (fine, here)
              (
                send_on-AllRings yield chan_id bytes blocking k ch keep r h,
                recv_on-AllRings yield chan_id len blocking k ch keep r h,
              )
      ]
    ]
