-- ===== src/Fs/Vfs/Mount.antt =====
-- kernel/src/fs/vfs/mount.rs: the table of mounts, and which file system a path belongs to.
-- A path comes here without its leading slash; 47 is `b'/'`.
use slipper_kernel.Prelude.{
  ℕ, zero, suc, ◌+◌, ◌<◌, ◌≡◌, ◌≢◌, refl, ap, ap₂, subst, sym, ◌∙◌, arith, List, [], ◌∷◌, ◌++◌,
  drop, length, set, replicate, get_or, Option, none, some, Bool, true, false, ◌&&◌, ltb, ◌==◌,
  if◌then◌else◌, bytes_eq, starts_with, bytes_eq→≡, starts_with-split, Bool-cases, Option-cases,
  ◌⊎◌, inl, inr,
}
use slipper_kernel.Fs.Vfs.Fd.{Fs, no_fs, proc, ipc, onyx, fat32}

abbrev pub max_mounts : ℕ
max_mounts = 5

pub record MountEntry : Type 0 where
  pub path : List ℕ
  pub fs : Fs

-- `G_MOUNTS` at the start
abbrev pub no_mounts : List MountEntry
no_mounts = replicate max_mounts (record { path = []; fs = no_fs })

-- the path is `b"proc"`
unfoldable pub mount_procfs : List MountEntry → List MountEntry
mount_procfs mounts = set mounts 0 (record { path = 112 ∷ 114 ∷ 111 ∷ 99 ∷ []; fs = proc })

-- the path is `b"ipc"`
unfoldable pub mount_ipcfs : List MountEntry → List MountEntry
mount_ipcfs mounts = set mounts 1 (record { path = 105 ∷ 112 ∷ 99 ∷ []; fs = ipc })

abbrev pub is_no_fs : Fs → Bool
is_no_fs no_fs = true
is_no_fs _ = false

-- What is left of `path` below the mount point, if it lies there.
unfoldable pub below_mount : List ℕ → List ℕ → Option (List ℕ)
below_mount path point =
    if bytes_eq path point
    then some []
    else if starts_with path point
        && ltb (length point) (length path)
        && (get_or path (length point) 0 == 47)
    then some (drop (length point + 1) path)
    else none

unfoldable pub resolve_mount : Fs → List ℕ → List MountEntry → Fs × List ℕ
unfolding below_mount
resolve_mount root_fs path [] = (root_fs, path)
resolve_mount root_fs path (m ∷ rest) =
    let later = resolve_mount root_fs path rest in
    if is_no_fs m.fs
    then later
    else elim (below_mount path m.path) [ some sub ↦ (m.fs, sub) | none ↦ later ]

-- `path` is the mount point itself, or a slash and `sub` follow it.
unfoldable pub IsBelow : List ℕ → List ℕ → List ℕ → Type 0
IsBelow path point sub = ((path ≡ point) × (sub ≡ [])) ⊎ (path ≡ point ++ (47 ∷ sub))

drop-step : (n : ℕ) (xs : List ℕ) → n < length xs → drop n xs ≡ get_or xs n 0 ∷ drop (n + 1) xs
drop-step n [] h = absurd (omega arith)
drop-step zero (x ∷ xs) h = refl
drop-step (suc n) (x ∷ xs) h =
    let e : suc n + 1 ≡ suc (n + 1) = omega arith in
    drop-step n xs (omega arith) ∙ ap (λ m. get_or xs n 0 ∷ drop m (x ∷ xs)) (sym e)

-- which branch of `below_mount` gave `y`
matched :
    (a b c d : Bool) (x y : List ℕ)
    → (if a then some [] else if b && c && d then some x else none) ≡ some y
    → ((a ≡ true) × (y ≡ [])) ⊎ ((b ≡ true) × (c ≡ true) × (d ≡ true) × (y ≡ x))
matched true b c d x y h = inl (refl, cc)
matched false false c d x y h = absurd cc
matched false true false d x y h = absurd cc
matched false true true false x y h = absurd cc
matched false true true true x y h = inr (refl, refl, refl, cc)

below_mount_lem :
    (path point sub : List ℕ) → below_mount path point ≡ some sub → IsBelow path point sub
unfolding below_mount IsBelow
below_mount_lem path point sub h =
    elim (matched (bytes_eq path point) (starts_with path point) (ltb (length point) (length path))
      (get_or path (length point) 0 == 47) (drop (length point + 1) path) sub h) [
        | inl (same, e) ↦ inl (bytes_eq→≡ path point same, e)
        | inr (starts, longer, slash, e) ↦
            let at : get_or path (length point) 0 ≡ 47 = ground arith in
            let rest = drop-step (length point) path (ground arith) in
            inr (
              starts_with-split path point starts
              ∙ ap (λ (t : List ℕ). point ++ t)
                  (rest ∙ ap₂ (λ (x : ℕ) (xs : List ℕ). x ∷ xs) at (sym e)))
      ]

-- the entry is in the table
unfoldable pub IsEntry : MountEntry → List MountEntry → Type 0
IsEntry m [] = ⊥
IsEntry m (x ∷ rest) = (x ≡ m) ⊎ IsEntry m rest

-- What `resolve_mount` may give: the file system of a mount that the path lies below, with the rest
-- of the path, or the root file system with the path as it is, when no mount's point is above it.
unfoldable pub ResolveOutcome : Fs → List ℕ → List MountEntry → Fs × List ℕ → Type 0
ResolveOutcome root_fs path mounts (fs, sub) =
    ((m : MountEntry) × IsEntry m mounts × (m.fs ≢ no_fs) × (fs ≡ m.fs) × IsBelow path m.path sub)
    ⊎ ((fs ≡ root_fs)
        × (sub ≡ path)
        × ((m : MountEntry) → IsEntry m mounts → m.fs ≢ no_fs → below_mount path m.path ≡ none))

is_no_fs_lem : (fs : Fs) → is_no_fs fs ≡ false → fs ≢ no_fs
is_no_fs_lem fs h e = let t : true ≡ false = sym (ap is_no_fs e) ∙ h in absurd cc

is_no_fs-true : (fs : Fs) → is_no_fs fs ≡ true → fs ≡ no_fs
is_no_fs-true no_fs h = refl
is_no_fs-true onyx h = absurd cc
is_no_fs-true fat32 h = absurd cc
is_no_fs-true proc h = absurd cc
is_no_fs-true ipc h = absurd cc

resolve_later :
    (root_fs : Fs) (path : List ℕ) (m : MountEntry) (rest : List MountEntry) (out : Fs × List ℕ)
    → (m.fs ≢ no_fs → below_mount path m.path ≡ none)
    → ResolveOutcome root_fs path rest out
    → ResolveOutcome root_fs path (m ∷ rest) out
unfolding ResolveOutcome IsEntry
resolve_later root_fs path m rest (fs, sub) passed (inl (n, member, some_fs, same, below)) =
    inl (n, inr member, some_fs, same, below)
resolve_later root_fs path m rest (fs, sub) passed (inr (root, whole, none_above)) =
    inr (root, whole, each)
  where
    each :
        (n : MountEntry) → (m ≡ n) ⊎ IsEntry n rest → n.fs ≢ no_fs → below_mount path n.path ≡ none
    each n (inl e) =
        subst (λ (x : MountEntry). x.fs ≢ no_fs → below_mount path x.path ≡ none) e passed
    each n (inr member) = none_above n member

-- A path is sent to a mounted file system only when it is that mount's point or lies below it after a
-- slash, and then with the rest of the path; it goes to the root file system, unchanged, only when the
-- test `below_mount` fails for every mount.
pub resolve_mount_lem :
    (root_fs : Fs) (path : List ℕ) (mounts : List MountEntry)
    → ResolveOutcome root_fs path mounts (resolve_mount root_fs path mounts)
unfolding resolve_mount ResolveOutcome IsEntry
resolve_mount_lem root_fs path [] = inr (refl, refl, λ m member. absurd member)
resolve_mount_lem root_fs path (m ∷ rest) =
    let later = λ (passed : m.fs ≢ no_fs → below_mount path m.path ≡ none).
      resolve_later root_fs path m rest (resolve_mount root_fs path rest) passed
        (resolve_mount_lem root_fs path rest) in
    elim (Bool-cases (is_no_fs m.fs)) [
      | inl skipped ↦ rw skipped (later (λ mounted. absurd (mounted (is_no_fs-true m.fs skipped))))
      | inr mounted ↦ elim (Option-cases (below_mount path m.path)) [
        | inl elsewhere ↦ rw (mounted, elsewhere) (later (λ some_fs. elsewhere))
        | inr (sub, below) ↦
            rw (mounted, below)
              (inl (
                m,
                inl refl,
                is_no_fs_lem m.fs mounted,
                refl,
                below_mount_lem path m.path sub below,
              ))
      ]
    ]
