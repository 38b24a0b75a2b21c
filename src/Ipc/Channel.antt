-- ===== src/Ipc/Channel.antt =====
-- kernel/src/ipc/channel/types.rs and channel.rs: the table of channels.
-- `G_CHANNELS` is a list, passed in and returned. A wait list, threaded through `Proc::wait_next`
-- in the code, is the list of the waiting processes' pids, the last to arrive first.
pub mod Table
use slipper_kernel.Prelude.{
  ℕ, zero, suc, ◌+◌, ◌-◌, ◌%◌, ◌^◌, min, List, [], ◌∷◌, Option, none, some, Bool, true, false, not,
  ◌&&◌, ◌||◌, ltb, leb, ◌==◌, if◌then◌else◌, length, take, get_or, set, get_elem?, replicate,
  bytes_eq,
}
use slipper_kernel.Core.Errno.{KResult, ok, err, no_mem, inval, exist, no_ent}
use slipper_kernel.Core.Parser.{copy_at}

abbrev pub chan_max : ℕ
chan_max = 32

abbrev pub chan_buf_size : ℕ
chan_buf_size = 4096

abbrev pub chan_name_max : ℕ
chan_name_max = 32

abbrev pub chan_max_clients : ℕ
chan_max_clients = 4

pub record Channel : Type 0 where
  pub buf : List ℕ
  pub head : ℕ
  pub tail : ℕ
  pub owner_pid : ℕ
  pub clients : List ℕ
  pub num_clients : ℕ
  pub name : List ℕ
  pub name_len : ℕ
  pub used : Bool
  pub closed : Bool
  pub send_wait : List ℕ
  pub recv_wait : List ℕ

-- what `create` stores in a free slot
unfoldable pub fresh : ℕ → Channel
fresh owner_pid = record {
  buf = replicate chan_buf_size 0;
  head = 0;
  tail = 0;
  owner_pid = owner_pid;
  clients = replicate chan_max_clients 0;
  num_clients = 0;
  name = replicate chan_name_max 0;
  name_len = 0;
  used = true;
  closed = false;
  send_wait = [];
  recv_wait = [];
}

-- The loop of `create`; the list is the table from index `i` on.
pub create_from : ℕ → List Channel → ℕ → KResult ℕ × List Channel
unfolding fresh
create_from owner_pid [] i = (err no_mem, [])
create_from owner_pid (ch ∷ rest) i =
    let (r, rest') = create_from owner_pid rest (i + 1) in
    if not ch.used then (ok i, fresh owner_pid ∷ rest) else (r, ch ∷ rest')

pub create : ℕ → List Channel → KResult ℕ × List Channel
unfolding create_from
create owner_pid chans = create_from owner_pid chans 0

-- the test of `find_by_name`
pub has_name : List ℕ → Channel → Bool
has_name name ch =
    ch.used && (ch.name_len == length name) && bytes_eq (take ch.name_len ch.name) name

pub find_from : List ℕ → List Channel → ℕ → Option ℕ
unfolding has_name
find_from name [] i = none
find_from name (ch ∷ rest) i = if has_name name ch then some i else find_from name rest (i + 1)

pub find_by_name : List ℕ → List Channel → Option ℕ
unfolding find_from
find_by_name name chans = find_from name chans 0

-- A change of `G_CHANNELS[id]` in place; an index out of range, where Rust panics, changes nothing.
pub update_at : ℕ → (Channel → Channel) → List Channel → List Channel
update_at id f [] = []
update_at zero f (ch ∷ rest) = f ch ∷ rest
update_at (suc id) f (ch ∷ rest) = ch ∷ update_at id f rest

-- the end of `create_named`
pub set_name : List ℕ → Channel → Channel
set_name name ch =
    let nlen = min (length name) (chan_name_max - 1) in
    record ch { name = copy_at 0 (take nlen name) ch.name; name_len = nlen % 2 ^ 8 }

pub name_created : List ℕ → KResult ℕ × List Channel → KResult ℕ × List Channel
unfolding set_name update_at
name_created name (ok id, chans) = (ok id, update_at id (set_name name) chans)
name_created name (err e, chans) = (err e, chans)

pub create_named : List ℕ → ℕ → List Channel → KResult ℕ × List Channel
unfolding find_by_name create name_created
create_named name owner_pid chans =
    if (length name == 0) || ltb (chan_name_max - 1) (length name)
    then (err inval, chans)
    else elim (find_by_name name chans) [
      | some id ↦ (err exist, chans)
      | none ↦ name_created name (create owner_pid chans)
    ]

-- `ch.clients[..ch.num_clients].iter()` has `pid`
unfoldable pub is_client : ℕ → List ℕ → Bool
is_client pid [] = false
is_client pid (c ∷ rest) = (c == pid) || is_client pid rest

abbrev pub clients_of : Channel → List ℕ
clients_of ch = take ch.num_clients ch.clients

-- `ch.clients[ch.num_clients] = pid; ch.num_clients += 1`
pub add_client : ℕ → Channel → Channel
add_client pid ch = record ch {
  clients = set ch.clients ch.num_clients pid;
  num_clients = (ch.num_clients + 1) % 2 ^ 32;
}

-- the end of `open_by_name`, on the channel found
pub open_channel : ℕ → ℕ → List Channel → Channel → KResult ℕ × List Channel
unfolding is_client add_client update_at
open_channel id client_pid chans ch =
    if leb chan_max_clients ch.num_clients
    then (err no_mem, chans)
    else if is_client client_pid (clients_of ch)
    then (ok id, chans)
    else (ok id, update_at id (add_client client_pid) chans)

pub open_by_name : List ℕ → ℕ → List Channel → KResult ℕ × List Channel
unfolding find_by_name open_channel
open_by_name name client_pid chans = elim (find_by_name name chans) [
  | none ↦ (err no_ent, chans)
  | some id ↦ elim (get_elem? chans id) [
    | none ↦ (err no_ent, chans)
    | some ch ↦ open_channel id client_pid chans ch
  ]
]

-- The loop of `disconnect`: `left` clients from index `i` on.
pub drop_client : ℕ → ℕ → ℕ → Channel → Channel
drop_client pid i zero ch = ch
drop_client pid i (suc left) ch =
    let next = drop_client pid (i + 1) left ch in
    if get_or ch.clients i 0 == pid
    then record ch {
      clients = set ch.clients i (get_or ch.clients (ch.num_clients - 1) 0);
      num_clients = ch.num_clients - 1;
    }
    else next

pub disconnect : ℕ → ℕ → List Channel → List Channel
unfolding drop_client update_at
disconnect chan_id pid chans =
    if leb chan_max chan_id
    then chans
    else update_at chan_id (λ ch. if not ch.used then ch else drop_client pid 0 ch.num_clients ch)
        chans

pub connect : ℕ → ℕ → List Channel → KResult (Unit {0}) × List Channel
unfolding add_client update_at
connect chan_id client_pid chans =
    if leb chan_max chan_id then (err inval, chans) else elim (get_elem? chans chan_id) [
      | none ↦ (err inval, chans)
      | some ch ↦
          if not ch.used
          then (err no_ent, chans)
          else if leb chan_max_clients ch.num_clients
          then (err no_mem, chans)
          else (ok tt, update_at chan_id (add_client client_pid) chans)
    ]

pub close : ℕ → List Channel → KResult (Unit {0}) × List Channel
unfolding update_at
close chan_id chans =
    if leb chan_max chan_id then (err inval, chans) else elim (get_elem? chans chan_id) [
      | none ↦ (err inval, chans)
      | some ch ↦
          if not ch.used
          then (err no_ent, chans)
          else (ok tt, update_at chan_id (λ c. record c { closed = true; used = false }) chans)
    ]

-- `used && name_len > 0`
pub is_named : Channel → Bool
is_named ch = ch.used && ltb 0 ch.name_len

pub named_count : List Channel → ℕ
unfolding is_named
named_count [] = 0
named_count (ch ∷ rest) = (if is_named ch then 1 else 0) + named_count rest

-- The loop of `named_by_index`, from index `i` on, `n` named channels passed.
pub named_from : ℕ → List Channel → ℕ → ℕ → Option (List ℕ × ℕ)
unfolding is_named
named_from idx [] i n = none
named_from idx (ch ∷ rest) i n =
    let next = named_from idx rest (i + 1) (if is_named ch then n + 1 else n) in
    if is_named ch && (n == idx) then some (take ch.name_len ch.name, i) else next

pub named_by_index : ℕ → List Channel → Option (List ℕ × ℕ)
unfolding named_from
named_by_index idx chans = named_from idx chans 0 0
