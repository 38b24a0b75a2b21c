-- ===== src/Init/Auth/Shadow/Update.antt =====
-- init/src/auth.rs: /etc/shadow after update_shadow_password.
use slipper_kernel.Prelude.{
  ℕ, ◌-◌, ◌≤◌, ◌<◌, List, ◌∷◌, ◌++◌, length, take, replicate, true, ◌≡◌, ◌≢◌, ◌↔◌, refl, ap, ◌∙◌,
  sym, subst, arith, All, Option, some, take_all, length-take, length-append, length-replicate,
}
use slipper_kernel.Init.Auth.Sha256.Digest.{digest}
use slipper_kernel.Init.Auth.Sha256.Final.{sha256-digest}
use slipper_kernel.Init.Auth.Lines.{lines, split_at}
use slipper_kernel.Init.Auth.Lines.Laws.{All-map, All-append, All-replicate}
use slipper_kernel.Init.Auth.Shadow.{
  generate_salt, combined, verify_combined, hash_field, shadow_entry, format_shadow_entry,
  read_file, find_shadow, read_shadow_password, verify_found, verify_shadow_password, updated_lines,
  joined, update_shadow_password,
}
use slipper_kernel.Init.Auth.Shadow.Entry.{
  IsBytes, generate_salt-IsBytes, digest-IsBytes, hash_field-low, length-hash_field,
  shadow_entry_lem, split_at-shadow_entry,
}
use slipper_kernel.Init.Auth.Shadow.Verify.{verify_stored_iff}
use slipper_kernel.Init.Auth.Shadow.Lookup.{
  IsLine, lines-IsLine, lines-joined, find_shadow-updated_lines, find_shadow-updated_others,
  updated_lines-IsLine,
}

-- the entry that update_shadow_password writes
unfoldable pub new_entry : ℕ → List ℕ → List ℕ → List ℕ
new_entry pid username password =
    shadow_entry username (generate_salt pid) (digest (combined password (generate_salt pid)))

pub update_shadow_password_lem :
    (pid : ℕ) (file : Option (List ℕ)) (username password : List ℕ)
    → update_shadow_password pid file username password
      ≡ some (
          take 4096 (
            joined
              (updated_lines username (new_entry pid username password) (lines (read_file file)))))
unfolding update_shadow_password format_shadow_entry new_entry
update_shadow_password_lem pid file username password =
    rw (sha256-digest (combined password (generate_salt pid))) refl

-- An entry fills its 128 bytes.
pub length-new_entry :
    (pid : ℕ) (username password : List ℕ)
    → length username ≤ 43
    → length (new_entry pid username password) ≡ 128
unfolding new_entry
length-new_entry pid username password short =
    let salt : List ℕ = generate_salt pid in
    let hash : List ℕ = digest (combined password salt) in
    let is_salt : IsBytes 8 salt = generate_salt-IsBytes pid in
    let is_hash : IsBytes 32 hash = digest-IsBytes (combined password salt) in
    let filler : List ℕ = replicate (43 - length username) 0 in
    omega (
      arith,
      ap length (shadow_entry_lem username salt hash short is_salt is_hash),
      length-append username (b':' ∷ (hash_field salt hash ++ filler)),
      length-append (hash_field salt hash) filler,
      length-hash_field salt hash is_salt is_hash,
      length-replicate {A = ℕ} (43 - length username) 0,
    )

new_entry-IsLine :
    (pid : ℕ) (username password : List ℕ)
    → length username ≤ 43
    → IsLine username
    → IsLine (new_entry pid username password)
unfolding new_entry
new_entry-IsLine pid username password short plain =
    let salt : List ℕ = generate_salt pid in
    let hash : List ℕ = digest (combined password salt) in
    let is_salt : IsBytes 8 salt = generate_salt-IsBytes pid in
    let is_hash : IsBytes 32 hash = digest-IsBytes (combined password salt) in
    subst IsLine (sym (shadow_entry_lem username salt hash short is_salt is_hash)) (
      All-append (λ x. x ≢ b'\n') username
        (b':' ∷ (hash_field salt hash ++ replicate (43 - length username) 0)) plain
        (
          (λ h. omega arith),
          All-append (λ x. x ≢ b'\n') (hash_field salt hash) (replicate (43 - length username) 0)
              (All-map (λ x. 36 ≤ x) (λ x. x ≢ b'\n') (hash_field salt hash)
                (λ x low h. omega arith) (hash_field-low salt hash is_salt is_hash))
              (All-replicate (λ x. x ≢ b'\n') (43 - length username) 0 (λ h. omega arith)),
        ))

pub short_take : (xs ys : List ℕ) → ys ≡ take 4096 xs → length ys < 4096 → take 4096 ys ≡ xs
short_take xs ys e h =
    take_all 4096 ys (omega arith)
    ∙ e
    ∙ take_all 4096 xs (omega (arith, length-take 4096 xs, ap length e))

-- The new file is read back as the updated lines.
lines-read_file :
    (pid : ℕ) (file : Option (List ℕ)) (username password new : List ℕ)
    → length username ≤ 43
    → IsLine username
    → update_shadow_password pid file username password ≡ some new
    → length new < 4096
    → lines (read_file (some new))
      ≡ updated_lines username (new_entry pid username password) (lines (read_file file))
unfolding read_file
lines-read_file pid file username password new short plain run small =
    ap lines (
      short_take (joined ls) new
        (some_injective new (take 4096 (joined ls))
          (sym run ∙ update_shadow_password_lem pid file username password))
        small)
    ∙ lines-joined ls (
        updated_lines-IsLine username (new_entry pid username password) (lines (read_file file))
          (new_entry-IsLine pid username password short plain) (lines-IsLine (read_file file)))
  where
    ls : List (List ℕ)
    ls = updated_lines username (new_entry pid username password) (lines (read_file file))

    some_injective : (xs ys : List ℕ) → some xs ≡ some ys → xs ≡ ys
    some_injective xs ys e = cc

split_at-new_entry :
    (pid : ℕ) (username password : List ℕ)
    → length username ≤ 43
    → All (λ x. x ≢ b':') username
    → split_at b':' (new_entry pid username password)
      ≡ some (
        username,
        hash_field (generate_salt pid) (digest (combined password (generate_salt pid)))
            ++ replicate (43 - length username) 0,
      )
unfolding new_entry
split_at-new_entry pid username password short plain =
    split_at-shadow_entry username (generate_salt pid)
      (digest (combined password (generate_salt pid))) short plain (generate_salt-IsBytes pid)
      (digest-IsBytes (combined password (generate_salt pid)))

-- After update_shadow_password of a user whose name has at most 43 characters, none of them a colon
-- or a newline, and on a file that stays below 4096 bytes, verify_shadow_password accepts for the
-- user exactly the passwords whose digest with the new salt, of their first 72 bytes together, is
-- that of the new password.
pub verify-update_shadow_password :
    (pid : ℕ) (file : Option (List ℕ)) (username password tried new : List ℕ)
    → length username ≤ 43
    → All (λ x. x ≢ b':') username
    → All (λ x. x ≢ b'\n') username
    → update_shadow_password pid file username password ≡ some new
    → length new < 4096
    → (verify_shadow_password (some new) username tried ≡ some true) ↔ (
        digest (take 72 (tried ++ generate_salt pid))
        ≡ digest (take 72 (password ++ generate_salt pid)))
unfolding combined verify_combined verify_shadow_password read_shadow_password
verify-update_shadow_password pid file username password tried new short no_colon plain run small =
    let found =
      ap (find_shadow username)
        (lines-read_file pid file username password new short plain run small)
      ∙ find_shadow-updated_lines username (new_entry pid username password)
          (hash_field (generate_salt pid) (digest (combined password (generate_salt pid)))
            ++ replicate (43 - length username) 0)
          (lines (read_file file)) (split_at-new_entry pid username password short no_colon) in
    rw found (
      unfold verify_found in
      verify_stored_iff (generate_salt pid) password tried (43 - length username) (omega arith)
        (generate_salt-IsBytes pid))

-- Under the same conditions the entry that read_shadow_password gives of any other user is as
-- before.
pub read-update_shadow_password :
    (pid : ℕ) (file : Option (List ℕ)) (username other password new : List ℕ)
    → length username ≤ 43
    → All (λ x. x ≢ b':') username
    → All (λ x. x ≢ b'\n') username
    → other ≢ username
    → update_shadow_password pid file username password ≡ some new
    → length new < 4096
    → read_shadow_password (some new) other ≡ read_shadow_password file other
unfolding read_shadow_password
read-update_shadow_password pid file username other password new short no_colon plain differ run
      small =
    ap (find_shadow other) (lines-read_file pid file username password new short plain run small)
    ∙ find_shadow-updated_others username other (new_entry pid username password)
        (hash_field (generate_salt pid) (digest (combined password (generate_salt pid)))
          ++ replicate (43 - length username) 0)
        (lines (read_file file)) (split_at-new_entry pid username password short no_colon) differ
