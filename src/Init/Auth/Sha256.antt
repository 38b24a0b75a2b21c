-- ===== src/Init/Auth/Sha256.antt =====
-- init/src/auth.rs: SHA-256. Words are numbers below 2 ^ 32, the arrays are lists of their length.
pub mod Digest
pub mod Stream
pub mod Final
use Prim.Native.Nat.{bit_xor}
use slipper_kernel.Prelude.{
  ℕ, zero, suc, ◌+◌, ◌*◌, ◌-◌, ◌/◌, ◌%◌, ◌^◌, List, [], ◌∷◌, ◌++◌, ◌==◌, if◌then◌else◌, Option,
  none, some, ◌>>=◌, bit_and, bit_or, bit_not, get_or, set, replicate, drop,
}
use slipper_kernel.Core.Parser.{be32, copy_at}

abbrev pub k : List ℕ
k =
    0x428a2f98 ∷ 0x71374491 ∷ 0xb5c0fbcf ∷ 0xe9b5dba5 ∷ 0x3956c25b ∷ 0x59f111f1 ∷ 0x923f82a4
    ∷ 0xab1c5ed5 ∷ 0xd807aa98 ∷ 0x12835b01 ∷ 0x243185be ∷ 0x550c7dc3 ∷ 0x72be5d74 ∷ 0x80deb1fe
    ∷ 0x9bdc06a7 ∷ 0xc19bf174 ∷ 0xe49b69c1 ∷ 0xefbe4786 ∷ 0x0fc19dc6 ∷ 0x240ca1cc ∷ 0x2de92c6f
    ∷ 0x4a7484aa ∷ 0x5cb0a9dc ∷ 0x76f988da ∷ 0x983e5152 ∷ 0xa831c66d ∷ 0xb00327c8 ∷ 0xbf597fc7
    ∷ 0xc6e00bf3 ∷ 0xd5a79147 ∷ 0x06ca6351 ∷ 0x14292967 ∷ 0x27b70a85 ∷ 0x2e1b2138 ∷ 0x4d2c6dfc
    ∷ 0x53380d13 ∷ 0x650a7354 ∷ 0x766a0abb ∷ 0x81c2c92e ∷ 0x92722c85 ∷ 0xa2bfe8a1 ∷ 0xa81a664b
    ∷ 0xc24b8b70 ∷ 0xc76c51a3 ∷ 0xd192e819 ∷ 0xd6990624 ∷ 0xf40e3585 ∷ 0x106aa070 ∷ 0x19a4c116
    ∷ 0x1e376c08 ∷ 0x2748774c ∷ 0x34b0bcb5 ∷ 0x391c0cb3 ∷ 0x4ed8aa4a ∷ 0x5b9cca4f ∷ 0x682e6ff3
    ∷ 0x748f82ee ∷ 0x78a5636f ∷ 0x84c87814 ∷ 0x8cc70208 ∷ 0x90befffa ∷ 0xa4506ceb ∷ 0xbef9a3f7
    ∷ 0xc67178f2 ∷ []

-- `wrapping_add`
unfoldable pub add32 : ℕ → ℕ → ℕ
add32 x y = (x + y) % 2 ^ 32

pub rotr : ℕ → ℕ → ℕ
rotr x n = bit_or (x / 2 ^ n) (x * 2 ^ (32 - n) % 2 ^ 32)

pub ch : ℕ → ℕ → ℕ → ℕ
ch x y z = bit_xor (bit_and x y) (bit_and (bit_not 32 x) z)

pub maj : ℕ → ℕ → ℕ → ℕ
maj x y z = bit_xor (bit_xor (bit_and x y) (bit_and x z)) (bit_and y z)

-- SIG0 and SIG1
pub big_sigma0 : ℕ → ℕ
unfolding rotr
big_sigma0 x = bit_xor (bit_xor (rotr x 2) (rotr x 13)) (rotr x 22)

pub big_sigma1 : ℕ → ℕ
unfolding rotr
big_sigma1 x = bit_xor (bit_xor (rotr x 6) (rotr x 11)) (rotr x 25)

pub sigma0 : ℕ → ℕ
unfolding rotr
sigma0 x = bit_xor (bit_xor (rotr x 7) (rotr x 18)) (x / 2 ^ 3)

pub sigma1 : ℕ → ℕ
unfolding rotr
sigma1 x = bit_xor (bit_xor (rotr x 17) (rotr x 19)) (x / 2 ^ 10)

-- `for t in t..t + left`, the words read from the block
pub load_words : List ℕ → ℕ → ℕ → List ℕ → List ℕ
unfolding be32
load_words block t zero w = w
load_words block t (suc left) w =
    load_words block (t + 1) left (set w t (be32 (drop (t * 4) block)))

-- `for t in t..t + left`, the words made from earlier ones
pub extend_words : ℕ → ℕ → List ℕ → List ℕ
unfolding sigma0 sigma1 add32
extend_words t zero w = w
extend_words t (suc left) w =
    let s0 = sigma0 (get_or w (t - 15) 0) in
    let s1 = sigma1 (get_or w (t - 2) 0) in
    extend_words (t + 1) left
      (set w t (add32 (add32 (add32 s1 (get_or w (t - 7) 0)) s0) (get_or w (t - 16) 0)))

-- the variables a to h
pub record Working : Type 0 where
  pub a : ℕ
  pub b : ℕ
  pub c : ℕ
  pub d : ℕ
  pub e : ℕ
  pub f : ℕ
  pub g : ℕ
  pub h : ℕ

pub working : List ℕ → Working
working state = record {
  a = get_or state 0 0;
  b = get_or state 1 0;
  c = get_or state 2 0;
  d = get_or state 3 0;
  e = get_or state 4 0;
  f = get_or state 5 0;
  g = get_or state 6 0;
  h = get_or state 7 0;
}

pub round : ℕ → ℕ → Working → Working
unfolding big_sigma0 big_sigma1 ch maj add32
round kt wt v =
    let t1 = add32 (add32 (add32 (add32 v.h (big_sigma1 v.e)) (ch v.e v.f v.g)) kt) wt in
    let t2 = add32 (big_sigma0 v.a) (maj v.a v.b v.c) in
    record {
      a = add32 t1 t2;
      b = v.a;
      c = v.b;
      d = v.c;
      e = add32 v.d t1;
      f = v.e;
      g = v.f;
      h = v.g;
    }

-- `for t in t..t + left`
pub rounds : List ℕ → ℕ → ℕ → Working → Working
unfolding round
rounds w t zero v = v
rounds w t (suc left) v = rounds w (t + 1) left (round (get_or k t 0) (get_or w t 0) v)

pub add_working : List ℕ → Working → List ℕ
unfolding add32
add_working state v =
    add32 (get_or state 0 0) v.a
    ∷ add32 (get_or state 1 0) v.b
    ∷ add32 (get_or state 2 0) v.c
    ∷ add32 (get_or state 3 0) v.d
    ∷ add32 (get_or state 4 0) v.e
    ∷ add32 (get_or state 5 0) v.f
    ∷ add32 (get_or state 6 0) v.g
    ∷ add32 (get_or state 7 0) v.h
    ∷ []

unfoldable pub sha256_compress : List ℕ → List ℕ → List ℕ
unfolding load_words extend_words working rounds add_working
sha256_compress state block =
    let w = extend_words 16 48 (load_words block 0 16 (replicate 64 0)) in
    add_working state (rounds w 0 64 (working state))

pub record Sha256State : Type 0 where
  pub state : List ℕ
  pub buf : List ℕ
  pub buf_len : ℕ
  pub total_len : ℕ

abbrev pub initial_state : List ℕ
initial_state =
    0x6a09e667 ∷ 0xbb67ae85 ∷ 0x3c6ef372 ∷ 0xa54ff53a ∷ 0x510e527f ∷ 0x9b05688c ∷ 0x1f83d9ab
    ∷ 0x5be0cd19 ∷ []

unfoldable pub sha256_init : Sha256State
sha256_init = record { state = initial_state; buf = replicate 64 0; buf_len = 0; total_len = 0 }

-- `state.buf[state.buf_len] = b; state.buf_len += 1`
unfoldable pub put_byte : ℕ → Sha256State → Sha256State
put_byte b s = record s { buf = set s.buf s.buf_len b; buf_len = s.buf_len + 1 }

-- `if state.buf_len == 64 { sha256_compress(…); state.buf_len = 0 }`
unfoldable pub flush : Sha256State → Sha256State
unfolding sha256_compress
flush s =
    if s.buf_len == 64 then record s { state = sha256_compress s.state s.buf; buf_len = 0 } else s

unfoldable pub update_byte : ℕ → Sha256State → Sha256State
unfolding put_byte flush
update_byte b s =
    let p : Sha256State = put_byte b s in
    flush (record p { total_len = (s.total_len + 1) % 2 ^ 64 })

unfoldable pub sha256_update : Sha256State → List ℕ → Sha256State
unfolding update_byte
sha256_update s [] = s
sha256_update s (b ∷ bytes) = sha256_update (update_byte b s) bytes

-- the `while` of sha256_final, at most `fuel` rounds
unfoldable pub pad_loop : ℕ → Sha256State → Option Sha256State
unfolding put_byte flush
pad_loop zero s = none
pad_loop (suc fuel) s =
    let rest = pad_loop fuel (put_byte 0 (flush s)) in if s.buf_len % 64 == 56 then some s else rest

unfoldable pub to_be32 : ℕ → List ℕ
to_be32 x = x / 2 ^ 24 % 2 ^ 8 ∷ x / 2 ^ 16 % 2 ^ 8 ∷ x / 2 ^ 8 % 2 ^ 8 ∷ x % 2 ^ 8 ∷ []

unfoldable pub to_be64 : ℕ → List ℕ
unfolding to_be32
to_be64 x = to_be32 (x / 2 ^ 32) ++ to_be32 x

-- `for i in 0..8`, the words of the result
unfoldable pub to_be_words : List ℕ → List ℕ
unfolding to_be32
to_be_words [] = []
to_be_words (x ∷ words) = to_be32 x ++ to_be_words words

unfoldable pub finish : ℕ → Sha256State → List ℕ
unfolding sha256_compress to_be64 to_be_words
finish bit_len s = to_be_words (sha256_compress s.state (copy_at 56 (to_be64 bit_len) s.buf))

unfoldable pub sha256_final : Sha256State → Option (List ℕ)
unfolding put_byte pad_loop finish
sha256_final s =
    let bit_len = s.total_len * 8 % 2 ^ 64 in
    pad_loop 65 (put_byte 0x80 s) >>= (λ t. some (finish bit_len t))

unfoldable pub sha256 : List ℕ → Option (List ℕ)
unfolding sha256_init sha256_update sha256_final
sha256 bytes = sha256_final (sha256_update sha256_init bytes)
