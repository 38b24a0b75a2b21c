-- ===== src/Tests/Kernel.antt =====
-- kernel/src/fs/onyxfs/compress.rs, kernel/src/ipc/channel and kernel/src/mm/pmm on concrete inputs.
use slipper_kernel.Prelude.{
  ℕ, ◌+◌, ◌^◌, ◌≤◌, ◌≡◌, refl, arith, List, [], ◌∷◌, length, some, true, false, inl, inr,
}
use slipper_kernel.Onyxfs.Compress.{done, rle_compress, rle_decompress}
use slipper_kernel.Onyxfs.Compress.RoundTrip.{rle_decompress-rle_compress}
use slipper_kernel.Onyxfs.Compress.Capacity.{rle_compress-fits}
use slipper_kernel.Ipc.Channel.{Channel, fresh}
use slipper_kernel.Ipc.Ring.{Kernel, running, ready, send, recv, woken, pid_allowed, current_pid}
use slipper_kernel.Ipc.Ring.Fifo.{IsRing}
use slipper_kernel.Ipc.Ring.Refine.{
  CanUse, SendAgrees, RecvAgrees, fifo_send, queue_at, send-fifo_send, recv-fifo,
}
use slipper_kernel.Ipc.Ring.Wake.{AllRings, Waits, woken_lem, send-recv-AllRings}
use slipper_kernel.Prelude.{◌==◌, if◌then◌else◌}
use slipper_kernel.Proc.Runqueue.{RunQueue, IsRunQueue, count}
use slipper_kernel.Mm.Pmm.Init.{init-IsPmm}
use slipper_kernel.Mm.Pmm.{init, Pmm, alloc, alloc_n, free, page_used}
use slipper_kernel.Mm.Pmm.Bitmap.{IsPmm, count_free}
use slipper_kernel.Mm.Pmm.Alloc.{AllocOutcome, alloc_lem}
use slipper_kernel.Mm.Pmm.Run.{RunOutcome, alloc_n_lem}
use slipper_kernel.Mm.Pmm.Free.{free-alloc}

abbrev text : List ℕ
text = 7 ∷ 7 ∷ 7 ∷ 7 ∷ 1 ∷ 2 ∷ []

abbrev packed : List ℕ
packed = 131 ∷ 7 ∷ 1 ∷ 1 ∷ 2 ∷ []

rle_decompress-rle_compress_example : rle_decompress packed 6 ≡ done text
unfolding rle_compress
rle_decompress-rle_compress_example =
    rle_decompress-rle_compress text packed 16 6 refl (omega arith)

rle_compress-fits_example : (enc : List ℕ) × (rle_compress text 8 ≡ done enc) × (length enc ≤ 7)
rle_compress-fits_example = rle_compress-fits text 8 (omega arith)

abbrev no_switch : Kernel → Kernel
no_switch k = k

-- a new channel of process 5
abbrev channel : Channel
channel = fresh 5

abbrev kernel_of : ℕ → Kernel
kernel_of pid = record {
  channels = channel ∷ [];
  proc_state = λ p. running;
  current = some pid;
  need_resched = false;
  run_queue = [];
}

channel-IsRing : IsRing channel
unfolding IsRing fresh
channel-IsRing = (refl, omega arith, omega arith, omega arith)

channel-CanUse : CanUse 0 channel (kernel_of 5)
unfolding CanUse fresh pid_allowed current_pid
channel-CanUse = (omega arith, refl, refl, refl, refl, channel-IsRing)

send-fifo_send_example :
    SendAgrees 0 text
      (kernel_of 5)
      (send no_switch 0 text false (kernel_of 5))
      (fifo_send (queue_at 0 (kernel_of 5)) text)
send-fifo_send_example = send-fifo_send no_switch 0 text (kernel_of 5) channel channel-CanUse

recv-fifo_example :
    RecvAgrees 0 4 (queue_at 0 (kernel_of 5)) (recv no_switch 0 4 false (kernel_of 5))
recv-fifo_example = recv-fifo no_switch 0 4 (kernel_of 5) channel channel-CanUse

channel-AllRings : AllRings (kernel_of 5)
unfolding AllRings
channel-AllRings = (channel-IsRing, tt)

send-recv-AllRings_example :
    AllRings ((send no_switch 0 text true (kernel_of 5)).1)
    × AllRings ((recv no_switch 0 4 true (kernel_of 5)).2)
send-recv-AllRings_example =
    send-recv-AllRings no_switch 0 4 text true (kernel_of 5) (λ k h. h) channel-AllRings

abbrev closed_channel : Channel
closed_channel = record channel { closed = true; used = false }

abbrev closed_kernel : Kernel
closed_kernel = record (kernel_of 5) { channels = closed_channel ∷ [] }

woken_lem_example :
    ((woken (8 ∷ 9 ∷ []) (kernel_of 5)).proc_state 9 ≡ ready)
    × ((woken (8 ∷ 9 ∷ []) (kernel_of 5)).need_resched ≡ true)
    × ((woken (8 ∷ 9 ∷ []) (kernel_of 5)).run_queue ≡ [])
unfolding Waits
woken_lem_example = woken_lem (8 ∷ 9 ∷ []) (kernel_of 5) 9 (inr (inl refl))

-- Pages 0, 1 and 3 of 6 are in use.
abbrev some_pages : Pmm
some_pages = record {
  base = 2 ^ 31;
  total_pages = 6;
  free_pages = 3;
  bitmap = 11 ∷ [];
  memory = λ a. 170;
}

some_pages-IsPmm : IsPmm some_pages
unfolding IsPmm count_free page_used
some_pages-IsPmm = (omega arith, refl, omega arith)

alloc_lem_example : AllocOutcome some_pages (alloc some_pages)
alloc_lem_example = alloc_lem some_pages some_pages-IsPmm

alloc_n_lem_example : RunOutcome 2 some_pages (alloc_n 2 some_pages)
alloc_n_lem_example = alloc_n_lem 2 some_pages some_pages-IsPmm (omega arith)

abbrev one_taken : Pmm
one_taken = (alloc some_pages).1

free-alloc_example :
    ((j : ℕ) → page_used (free (2 ^ 31 + 8192) one_taken).bitmap j ≡ page_used some_pages.bitmap j)
    × ((free (2 ^ 31 + 8192) one_taken).free_pages ≡ some_pages.free_pages)
unfolding alloc
free-alloc_example = free-alloc some_pages one_taken (2 ^ 31 + 8192) some_pages-IsPmm refl

init-IsPmm_example : IsPmm (init (2 ^ 31) (2 ^ 31) (2 ^ 27) (λ a. 0))
init-IsPmm_example = init-IsPmm (2 ^ 31) (2 ^ 31) (2 ^ 27) (λ a. 0) (omega arith) (omega arith)

abbrev none_ready : RunQueue
none_ready = record { queue = []; nr_ready = 0; on_rq = λ p. false }

none_ready-IsRunQueue : IsRunQueue none_ready
unfolding IsRunQueue count
none_ready-IsRunQueue = (refl, λ p. refl)

one_ready-IsRunQueue :
    IsRunQueue
      (record { queue = 3 ∷ []; nr_ready = 1; on_rq = λ p. if p == 3 then true else false })
unfolding IsRunQueue count
one_ready-IsRunQueue = (refl, λ p. once p)
  where
    once :
        (p : ℕ)
        → (if 3 == p then 1 else 0) + 0 ≡ (if (if p == 3 then true else false) then 1 else 0)
    once p = ground arith
