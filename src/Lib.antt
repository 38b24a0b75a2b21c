-- ===== src/Lib.antt =====
-- SlipperKernel: the core of a small operating system kernel for RISC-V, written in Rust.
--
-- The program. The crate core/ has what the kernel and the host tools share: error codes, a byte
-- parser, and the formats of executables and of the file system OnyxFS. The kernel in kernel/ has
-- memory management, processes, IPC channels, and a virtual file system over OnyxFS, FAT32 and two
-- synthetic file systems. A process reaches them through descriptors and channels; the channels
-- change the states of processes that wait; the file systems keep their blocks in the formats of
-- core/, compress the blocks of snapshots, and log writes in a journal. The first
-- process is the init of init/, which keeps the users and their passwords.
--
-- The files.
--   Prelude, Prelude/*     shared names, lists over the native numbers, tests, bits of a word
--   Core/Errno             core/src/errno.rs
--   Core/Parser, Cursor    core/src/parser.rs: the integer readers, and the cursor
--   Core/Formats/*         core/src/formats: OnyfsSuper, OnyfsInode, OnyfsDirent, SnapshotMeta,
--                          OnxSegment, OnxHeader, with from_bytes and to_bytes of each
--   Core/Formats/Misc      core/src/formats/misc.rs: the FAT32 parameter block, 8.3 names
--   Core/Fmt               core/src/fmt/format_num.rs: write_dec and write_hex_or_dec
--   Core/Memory            core/src/string.rs: memcpy, memset, memmove
--   Onyxfs/Compress        kernel/src/fs/onyxfs/compress.rs: rle_compress and rle_decompress
--   Onyxfs/Journal         kernel/src/fs/onyxfs/journal.rs: journal_log, journal_commit,
--                          journal_recover, over the block transfers of mod.rs
--   Init/Auth/Sha256       init/src/auth.rs: the hash, rotr to sha256
--   Init/Auth/Hex          init/src/auth.rs: bytes_to_hex, hex_decode_8, const_time_eq
--   Init/Auth/Lines        init/src/auth.rs: the lines of a file and the fields of a line
--   Init/Auth/Shadow       init/src/auth.rs: generate_salt, format_shadow_entry, and
--                          read_, verify_, update_shadow_password and delete_shadow_entry
--   Init/Auth/Passwd       init/src/auth.rs: parse_passwd, parse_dec, format_dec,
--                          format_passwd_entry, update_ and delete_passwd_entry
--   Ipc/Channel            kernel/src/ipc/channel/channel.rs and types.rs: the channel table
--   Ipc/Ring               kernel/src/ipc/channel/ringbuf.rs: send, recv, the wait lists
--   Mm/Pmm                 kernel/src/mm/pmm/mod.rs and bitmap.rs: alloc, alloc_n, free, init
--   Mm/Vmm                 kernel/src/mm/vmm: walk, split_leaf, map, map_anon, unmap, translate,
--                          translate_user; the page-table constants of kernel/src/arch/regs.rs
--   Proc/Runqueue          kernel/src/proc/scheduler/runqueue.rs: enqueue, dequeue, remove
--   Proc/Frame             kernel/src/arch/trap_frame.rs: the saved registers
--   Proc/Signals           kernel/src/proc/signals.rs: signal_send, sigaction, sigprocmask,
--                          sigreturn, signal_check
--   Fs/Vfs/Fd              kernel/src/fs/vfs/vnode.rs, ops.rs, dup.rs, seek.rs, and close of file.rs
--   Fs/Vfs/Mount           kernel/src/fs/vfs/mount.rs: the mount table and resolve_mount
--   Fs/Vfs/File            kernel/src/fs/vfs/file.rs and rw.rs: open, read, write
--   Tests/*                runs on concrete inputs
--
-- The model. A static variable (G_CHANNELS, G_PMM, G_KERNEL_FDS, G_MOUNTS) is a value that an
-- operation takes and returns; an operation that fails returns the error beside the state as the
-- code leaves it. A machine integer is a number, with the wrap-around of its width written out,
-- since the release build does not check for overflow; a byte slice is a list of numbers. Where
-- Rust would panic on an index out of range a read gives a default and a write changes nothing.
-- `open` of file.rs is `open_file` here, the fields of `Vfs` are the two descriptor tables, and the
-- wait lists, which the code threads through Proc::wait_next, are lists of pids: the model is right
-- as long as no process is on two of them, or twice on one. The run queue, which the code threads
-- through Proc::next with a head and a tail, is a list too. A pointer that sigaction is given for the
-- old action does not overlap the new one.
--
-- Loops recur on the list that they run through, on the number of turns left, or, in the two
-- compression loops, on fuel of the length of the input, of which each turn takes at least one byte.
-- The digits of a 64-bit number get fuel 20, the size of the code's buffer. The loop that pads a
-- message of SHA-256 gets fuel 65: it ends after at most 63 zeros. The loops of
-- map, map_anon and unmap take fuel; that of map ends with more rounds than bytes.
--
-- The journal stands on a disk that gives each block its contents and the fault, if any, of a
-- transfer, with the number of sectors that were transferred before it; its theorems on recovery are
-- about a disk without faults. A file of the init is what open and read give of it, and what is
-- handed to write_fd is the result; the kernel behind these calls is not part of that model.
--
-- Not modelled. sched_yield, which ends in the context switch of the assembly, is a parameter of
-- send and recv; the file systems below the virtual one stand behind the record `Drivers`. Drivers,
-- arch, boot, the syscall layer and interrupts are left out: a step of an operation is not
-- interleaved with another. The choice of the next process, the life of a page table, the slab
-- allocator, the rest of OnyxFS on the disk, the other commands of the init and vformat are left out.
pub mod Prelude
pub mod Onyxfs
pub mod Core
pub mod Fs
pub mod Init
pub mod Ipc
pub mod Mm
pub mod Proc
pub mod Tests
