-- ===== src/Ipc/Ring/Refine.antt =====
-- kernel/src/ipc/channel/ringbuf.rs: `send` and `recv` implement a bounded queue of bytes.
use slipper_kernel.Prelude.{
  ℕ, ◌+◌, ◌≤◌, ◌<◌, min, ◌≡◌, refl, ap, sym, ◌∙◌, arith, List, [], ◌∷◌, ◌++◌, take, drop, length,
  get_elem?, Option, none, some, Bool, true, false, ltb, leb, ◌==◌, if◌then◌else◌, Bool-cases, inl,
  inr, take-min, drop-min, take_all, drop_all,
}
use slipper_kernel.Core.Errno.{KResult, ok, err, busy}
use slipper_kernel.Ipc.Channel.{Channel, chan_max, chan_buf_size}
use slipper_kernel.Ipc.Channel.Table.{get_elem?-update_at}
use slipper_kernel.Ipc.Ring.{
  Kernel, pid_allowed, current_pid, send, recv, send_on, recv_on, used_bytes, space, push_all,
  pop_all, put, wake_receivers, wake_senders, woken,
}
use slipper_kernel.Ipc.Ring.Fifo.{
  IsRing, contents, contents-push_all, length-contents, contents-pop_all,
}

-- The specification: a queue of at most `chan_buf_size` bytes, which takes a message whole or not at all.
unfoldable pub fifo_send : List ℕ → List ℕ → Option (List ℕ)
fifo_send queue bytes =
    if ltb chan_buf_size (length queue + length bytes) then none else some (queue ++ bytes)

-- the bytes that channel `chan_id` holds
pub queue_at : ℕ → Kernel → List ℕ
queue_at chan_id k = elim (get_elem? k.channels chan_id) [ none ↦ [] | some ch ↦ contents ch ]

-- `ch` is channel `chan_id`, it is open, and the running process may use it.
unfoldable pub CanUse : ℕ → Channel → Kernel → Type 0
CanUse chan_id ch k =
    (chan_id < chan_max)
    × (get_elem? k.channels chan_id ≡ some ch)
    × (ch.used ≡ true)
    × (ch.closed ≡ false)
    × (pid_allowed ch (current_pid k) ≡ true)
    × IsRing ch

-- What a `send` that does not wait gave is what the queue gives.
unfoldable pub SendAgrees : ℕ → List ℕ → Kernel → KResult ℕ × Kernel → Option (List ℕ) → Type 0
SendAgrees chan_id bytes k result none = result ≡ (err busy, k)
SendAgrees chan_id bytes k (r, k') (some queue) =
    (r ≡ ok (length bytes)) × (queue_at chan_id k' ≡ queue)

queue_at_lem :
    (chan_id : ℕ) (k : Kernel) (ch : Channel)
    → get_elem? k.channels chan_id ≡ some ch
    → queue_at chan_id k ≡ contents ch
unfolding queue_at
queue_at_lem chan_id k ch h = rw (queue_at, h)

queue_at-put :
    (chan_id : ℕ) (old ch : Channel) (k : Kernel)
    → get_elem? k.channels chan_id ≡ some old
    → queue_at chan_id (put chan_id ch k) ≡ contents ch
queue_at-put chan_id old ch k h =
    queue_at_lem chan_id (put chan_id ch k) ch
      (get_elem?-update_at k.channels chan_id (λ c. ch) old h)

queue_at-woken :
    (chan_id : ℕ) (waiters : List ℕ) (k : Kernel)
    → queue_at chan_id (woken waiters k) ≡ queue_at chan_id k
unfolding queue_at woken
queue_at-woken chan_id [] k = refl
queue_at-woken chan_id (pid ∷ rest) k = refl

queue_at-wake_receivers :
    (chan_id : ℕ) (old ch : Channel) (k : Kernel)
    → get_elem? k.channels chan_id ≡ some old
    → queue_at chan_id (wake_receivers chan_id ch k) ≡ contents ch
unfolding wake_receivers contents
queue_at-wake_receivers chan_id old ch k h =
    let ch' = record ch { recv_wait = [] } in
    queue_at-woken chan_id ch.recv_wait (put chan_id ch' k) ∙ queue_at-put chan_id old ch' k h

queue_at-wake_senders :
    (chan_id : ℕ) (old ch : Channel) (k : Kernel)
    → get_elem? k.channels chan_id ≡ some old
    → queue_at chan_id (wake_senders chan_id ch k) ≡ contents ch
unfolding wake_senders contents
queue_at-wake_senders chan_id old ch k h =
    let ch' = record ch { send_wait = [] } in
    queue_at-woken chan_id ch.send_wait (put chan_id ch' k) ∙ queue_at-put chan_id old ch' k h

send_open :
    (yield : Kernel → Kernel) (chan_id : ℕ) (bytes : List ℕ) (blocking : Bool) (k : Kernel)
    (ch : Channel)
    → CanUse chan_id ch k
    → send yield chan_id bytes blocking k ≡ send_on yield chan_id bytes blocking k ch
unfolding CanUse send
send_open yield chan_id bytes blocking k ch (in_range, here, u, c, a, r) =
    let ok_id : leb chan_max chan_id ≡ false = ground arith in rw (ok_id, here)

send_fits :
    (yield : Kernel → Kernel) (chan_id : ℕ) (bytes : List ℕ) (blocking : Bool) (k : Kernel)
    (ch : Channel)
    → CanUse chan_id ch k
    → used_bytes ch + length bytes ≤ chan_buf_size
    → send_on yield chan_id bytes blocking k ch
      ≡ (ok (length bytes), wake_receivers chan_id (push_all bytes ch) k)
unfolding CanUse send_on IsRing
send_fits yield chan_id bytes blocking k ch (in_range, here, u, c, a, (hl, hh, ht, hu)) fits =
    let enough : ltb (space ch) (length bytes) ≡ false = ground arith in rw (u, c, a, enough)

send_full :
    (yield : Kernel → Kernel) (chan_id : ℕ) (bytes : List ℕ) (k : Kernel) (ch : Channel)
    → CanUse chan_id ch k
    → chan_buf_size < used_bytes ch + length bytes
    → send_on yield chan_id bytes false k ch ≡ (err busy, k)
unfolding CanUse send_on IsRing
send_full yield chan_id bytes k ch (in_range, here, u, c, a, (hl, hh, ht, hu)) full =
    let short : ltb (space ch) (length bytes) ≡ true = ground arith in rw (u, c, a, short)

-- On an open channel that the caller may use, a `send` that does not wait does what a bounded queue
-- does: it adds the whole message and returns its length, or returns `Busy` and changes nothing.
pub send-fifo_send :
    (yield : Kernel → Kernel) (chan_id : ℕ) (bytes : List ℕ) (k : Kernel) (ch : Channel)
    → CanUse chan_id ch k
    → SendAgrees chan_id bytes k
        (send yield chan_id bytes false k)
        (fifo_send (queue_at chan_id k) bytes)
unfolding CanUse fifo_send SendAgrees
send-fifo_send yield chan_id bytes k ch may =
    let (in_range, here, u, c, a, r) = may in
    let size = length-contents ch in
    elim (Bool-cases (ltb chan_buf_size (length (contents ch) + length bytes))) [
      | inl full ↦ rw (
        queue_at_lem chan_id k ch here,
        full,
        send_open yield chan_id bytes false k ch may,
        send_full yield chan_id bytes k ch may (ground arith),
      )
      | inr fits ↦
          let small : used_bytes ch + length bytes ≤ chan_buf_size = ground arith in
          rw
            (
              queue_at_lem chan_id k ch here,
              fits,
              send_open yield chan_id bytes false k ch may,
              send_fits yield chan_id bytes false k ch may small,
            )
            (
              refl,
              queue_at-wake_receivers chan_id ch (push_all bytes ch) k here
                  ∙ contents-push_all bytes ch r small,
            )
    ]

recv_open :
    (yield : Kernel → Kernel) (chan_id len : ℕ) (blocking : Bool) (k : Kernel) (ch : Channel)
    → CanUse chan_id ch k
    → recv yield chan_id len blocking k ≡ recv_on yield chan_id len blocking k ch
unfolding CanUse recv
recv_open yield chan_id len blocking k ch (in_range, here, u, c, a, r) =
    let ok_id : leb chan_max chan_id ≡ false = ground arith in rw (ok_id, here)

recv_empty :
    (yield : Kernel → Kernel) (chan_id len : ℕ) (k : Kernel) (ch : Channel)
    → CanUse chan_id ch k
    → used_bytes ch ≡ 0
    → recv_on yield chan_id len false k ch ≡ (ok 0, [], k)
unfolding CanUse recv_on
recv_empty yield chan_id len k ch (in_range, here, u, c, a, r) e =
    let none_left : (used_bytes ch == 0) ≡ true = ground arith in rw (u, c, a, none_left)

recv_some :
    (yield : Kernel → Kernel) (chan_id len : ℕ) (blocking : Bool) (k : Kernel) (ch : Channel)
    → CanUse chan_id ch k
    → 0 < used_bytes ch
    → recv_on yield chan_id len blocking k ch ≡ (
      ok (min len (used_bytes ch)),
      (pop_all (min len (used_bytes ch)) ch).0,
      wake_senders chan_id ((pop_all (min len (used_bytes ch)) ch).1) k,
    )
unfolding CanUse recv_on
recv_some yield chan_id len blocking k ch (in_range, here, u, c, a, r) e =
    let some_left : (used_bytes ch == 0) ≡ false = ground arith in rw (u, c, a, some_left)

-- What a `recv` gave is what taking up to `len` bytes off the queue gives.
unfoldable pub RecvAgrees : ℕ → ℕ → List ℕ → KResult ℕ × List ℕ × Kernel → Type 0
RecvAgrees chan_id len queue (r, bytes, k') =
    (r ≡ ok (min len (length queue)))
    × (bytes ≡ take len queue)
    × (queue_at chan_id k' ≡ drop len queue)

-- On an open channel that the caller may use, a `recv` that does not wait takes the oldest `len`
-- bytes off the queue, or all where there are fewer, stores them in order and returns their number.
pub recv-fifo :
    (yield : Kernel → Kernel) (chan_id len : ℕ) (k : Kernel) (ch : Channel)
    → CanUse chan_id ch k
    → RecvAgrees chan_id len (queue_at chan_id k) (recv yield chan_id len false k)
unfolding CanUse RecvAgrees
recv-fifo yield chan_id len k ch may =
    let (in_range, here, u, c, a, r) = may in
    let size = length-contents ch in
    elim (Bool-cases (used_bytes ch == 0)) [
      | inl none_left ↦
          let e : used_bytes ch ≡ 0 = ground arith in
          let empty : contents ch ≡ [] = length-zero (contents ch) (omega (arith, size, e)) in
          rw
            (
              recv_open yield chan_id len false k ch may,
              recv_empty yield chan_id len k ch may e,
              queue_at_lem chan_id k ch here,
              empty,
            )
            (
              ap ok (omega arith),
              sym (take_all len [] (omega arith)),
              sym (drop_all [] len (omega arith)),
            )
      | inr some_left ↦
          let n = min len (used_bytes ch) in
          let e : 0 < used_bytes ch = ground arith in
          let (taken, left) = contents-pop_all n ch r (omega arith) in
          let same : n ≡ min len (length (contents ch)) = omega (arith, size) in
          rw
            (
              recv_open yield chan_id len false k ch may,
              recv_some yield chan_id len false k ch may e,
              queue_at_lem chan_id k ch here,
            )
            (
              ap ok same,
              taken ∙ ap (λ m. take m (contents ch)) same ∙ take-min len (contents ch),
              queue_at-wake_senders chan_id ch ((pop_all n ch).1) k here
                  ∙ left
                  ∙ ap (λ m. drop m (contents ch)) same
                  ∙ drop-min len (contents ch),
            )
    ]
  where
    length-zero : (xs : List ℕ) → length xs ≡ 0 → xs ≡ []
    length-zero [] h = refl
    length-zero (x ∷ xs) h = absurd (omega arith)
