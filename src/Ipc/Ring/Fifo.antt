-- ===== src/Ipc/Ring/Fifo.antt =====
-- kernel/src/ipc/channel/ringbuf.rs: the buffer of a channel as a queue of bytes.
use slipper_kernel.Prelude.{
  ℕ, zero, suc, ◌+◌, ◌-◌, ◌%◌, ◌^◌, ◌≤◌, ◌<◌, ◌≡◌, ◌≢◌, refl, ap, sym, ◌∙◌, ap₂, arith, List, [],
  ◌∷◌, ◌++◌, append-nil, append_assoc, take, drop, length, get_or, set, length-set,
}
use slipper_kernel.Ipc.Channel.{Channel, chan_buf_size}
use slipper_kernel.Ipc.Ring.{used_bytes, push, push_all, pop_all, advance}

-- the `n` bytes from the free-running index `h` on
pub window : List ℕ → ℕ → ℕ → List ℕ
window buf h zero = []
window buf h (suc n) = get_or buf (h % chan_buf_size) 0 ∷ window buf ((h + 1) % 2 ^ 32) n

-- What a channel holds, the oldest byte first.
unfoldable pub contents : Channel → List ℕ
unfolding window
contents ch = window ch.buf ch.head (used_bytes ch)

unfoldable pub IsRing : Channel → Type 0
IsRing ch =
    (length ch.buf ≡ chan_buf_size)
    × (ch.head < 2 ^ 32)
    × (ch.tail < 2 ^ 32)
    × (used_bytes ch ≤ chan_buf_size)

get_or-set_self : (xs : List ℕ) (i v d : ℕ) → i < length xs → get_or (set xs i v) i d ≡ v
get_or-set_self [] i v d h = absurd (omega arith)
get_or-set_self (x ∷ xs) zero v d h = refl
get_or-set_self (x ∷ xs) (suc i) v d h = get_or-set_self xs i v d (omega arith)

get_or-set_ne : (xs : List ℕ) (i j v d : ℕ) → i ≢ j → get_or (set xs i v) j d ≡ get_or xs j d
get_or-set_ne [] i j v d h = refl
get_or-set_ne (x ∷ xs) zero zero v d h = absurd (h refl)
get_or-set_ne (x ∷ xs) zero (suc j) v d h = refl
get_or-set_ne (x ∷ xs) (suc i) zero v d h = refl
get_or-set_ne (x ∷ xs) (suc i) (suc j) v d h = get_or-set_ne xs i j v d (λ e. h (ap suc e))

abbrev distance : ℕ → ℕ → ℕ
distance h t = (t + 2 ^ 32 - h) % 2 ^ 32

-- A byte stored at index `t` is not among the `n` bytes before it.
window-set :
    (buf : List ℕ) (h t n b : ℕ)
    → h < 2 ^ 32
    → t < 2 ^ 32
    → n ≤ distance h t
    → distance h t < chan_buf_size
    → window (set buf (t % chan_buf_size) b) h n ≡ window buf h n
unfolding window
window-set buf h t zero b hh ht hn hd = refl
window-set buf h t (suc n) b hh ht hn hd =
    let ne : t % chan_buf_size ≢ h % chan_buf_size = omega arith in
    let rest =
      window-set buf ((h + 1) % 2 ^ 32) t n b (omega arith) ht (omega arith) (omega arith) in
    rw (get_or-set_ne buf (t % chan_buf_size) (h % chan_buf_size) b 0 ne, rest)

window-snoc :
    (buf : List ℕ) (h t n : ℕ)
    → h < 2 ^ 32
    → t < 2 ^ 32
    → n ≡ distance h t
    → window buf h (suc n) ≡ window buf h n ++ (get_or buf (t % chan_buf_size) 0 ∷ [])
unfolding window
window-snoc buf h t zero hh ht e =
    let same : h ≡ t = omega arith in ap (λ i. get_or buf (i % chan_buf_size) 0 ∷ []) same
window-snoc buf h t (suc n) hh ht e =
    ap (λ t. get_or buf (h % chan_buf_size) 0 ∷ t)
      (window-snoc buf ((h + 1) % 2 ^ 32) t n (omega arith) ht (omega arith))

push-IsRing :
    (b : ℕ) (ch : Channel) → IsRing ch → used_bytes ch < chan_buf_size → IsRing (push b ch)
unfolding IsRing push
push-IsRing b ch (hl, hh, ht, hu) room =
    (length-set ch.buf (ch.tail % chan_buf_size) b ∙ hl, hh, omega arith, omega arith)

used_bytes-push :
    (b : ℕ) (ch : Channel)
    → IsRing ch
    → used_bytes ch < chan_buf_size
    → used_bytes (push b ch) ≡ suc (used_bytes ch)
unfolding IsRing push
used_bytes-push b ch (hl, hh, ht, hu) room = omega arith

contents-push :
    (b : ℕ) (ch : Channel)
    → IsRing ch
    → used_bytes ch < chan_buf_size
    → contents (push b ch) ≡ contents ch ++ (b ∷ [])
unfolding IsRing push contents
contents-push b ch (hl, hh, ht, hu) room =
    let n = used_bytes ch in
    let at = ch.tail % chan_buf_size in
    let stored = set ch.buf at b in
    let in_range : at < length ch.buf = omega (arith, hl) in
    ap (window stored ch.head) (used_bytes-push b ch (hl, hh, ht, hu) room)
    ∙ window-snoc stored ch.head ch.tail n hh ht refl
    ∙ ap₂ (λ (xs : List ℕ) (x : ℕ). xs ++ (x ∷ []))
        (window-set ch.buf ch.head ch.tail n b hh ht (omega arith) room)
        (get_or-set_self ch.buf at b 0 in_range)

pub push_all-IsRing :
    (bs : List ℕ) (ch : Channel)
    → IsRing ch
    → used_bytes ch + length bs ≤ chan_buf_size
    → IsRing (push_all bs ch)
unfolding push_all
push_all-IsRing [] ch h room = h
push_all-IsRing (b ∷ bs) ch h room =
    let more = used_bytes-push b ch h (omega arith) in
    push_all-IsRing bs (push b ch) (push-IsRing b ch h (omega arith)) (omega arith)

pub contents-push_all :
    (bs : List ℕ) (ch : Channel)
    → IsRing ch
    → used_bytes ch + length bs ≤ chan_buf_size
    → contents (push_all bs ch) ≡ contents ch ++ bs
unfolding push_all
contents-push_all [] ch h room = sym (append-nil (contents ch))
contents-push_all (b ∷ bs) ch h room =
    let more = used_bytes-push b ch h (omega arith) in
    contents-push_all bs (push b ch) (push-IsRing b ch h (omega arith)) (omega arith)
    ∙ ap (λ (xs : List ℕ). xs ++ bs) (contents-push b ch h (omega arith))
    ∙ append_assoc (contents ch) (b ∷ []) bs

length-window : (buf : List ℕ) (h n : ℕ) → length (window buf h n) ≡ n
unfolding window
length-window buf h zero = refl
length-window buf h (suc n) = ap suc (length-window buf ((h + 1) % 2 ^ 32) n)

pub length-contents : (ch : Channel) → length (contents ch) ≡ used_bytes ch
unfolding contents
length-contents ch = length-window ch.buf ch.head (used_bytes ch)

advance-IsRing : (ch : Channel) → IsRing ch → 0 < used_bytes ch → IsRing (advance ch)
unfolding IsRing
advance-IsRing ch (hl, hh, ht, hu) some_left = (hl, omega arith, ht, omega arith)

used_bytes-advance :
    (ch : Channel) → IsRing ch → 0 < used_bytes ch → used_bytes ch ≡ suc (used_bytes (advance ch))
unfolding IsRing
used_bytes-advance ch (hl, hh, ht, hu) some_left = omega arith

contents-advance :
    (ch : Channel)
    → IsRing ch
    → 0 < used_bytes ch
    → contents ch ≡ get_or ch.buf (ch.head % chan_buf_size) 0 ∷ contents (advance ch)
unfolding contents window
contents-advance ch h some_left = ap (window ch.buf ch.head) (used_bytes-advance ch h some_left)

pub pop_all-IsRing :
    (n : ℕ) (ch : Channel) → IsRing ch → n ≤ used_bytes ch → IsRing ((pop_all n ch).1)
unfolding pop_all
pop_all-IsRing zero ch h le = h
pop_all-IsRing (suc n) ch h le =
    let less = used_bytes-advance ch h (omega arith) in
    pop_all-IsRing n (advance ch) (advance-IsRing ch h (omega arith)) (omega arith)

pub contents-pop_all :
    (n : ℕ) (ch : Channel)
    → IsRing ch
    → n ≤ used_bytes ch
    → ((pop_all n ch).0 ≡ take n (contents ch))
      × (contents ((pop_all n ch).1) ≡ drop n (contents ch))
unfolding pop_all
contents-pop_all zero ch h le = (refl, refl)
contents-pop_all (suc n) ch h le =
    let less = used_bytes-advance ch h (omega arith) in
    let (taken, left) =
      contents-pop_all n (advance ch) (advance-IsRing ch h (omega arith)) (omega arith) in
    let split = contents-advance ch h (omega arith) in
    (
      ap (λ t. get_or ch.buf (ch.head % chan_buf_size) 0 ∷ t) taken ∙ sym (ap (take (suc n)) split),
      left ∙ sym (ap (drop (suc n)) split),
    )
