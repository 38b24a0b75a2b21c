-- ===== src/Tests/Users.antt =====
-- init/src/auth.rs on concrete inputs.
use slipper_kernel.Prelude.{
  ℕ, ◌≡◌, ◌≢◌, ◌<◌, ◌↔◌, refl, arith, List, [], ◌∷◌, ◌++◌, take, length, length-append, length-take,
  All, none, some, true, Option,
}
use slipper_kernel.Init.Auth.Sha256.{sha256}
use slipper_kernel.Init.Auth.Sha256.Digest.{digest}
use slipper_kernel.Init.Auth.Sha256.Final.{sha256-digest}
use slipper_kernel.Init.Auth.Lines.{lines}
use slipper_kernel.Init.Auth.Lines.{fit}
use slipper_kernel.Init.Auth.Passwd.{PasswdEntry, format_passwd_entry, parse_line}
use slipper_kernel.Init.Auth.Passwd.Laws.{format_passwd_entry_lem}
use slipper_kernel.Init.Auth.Shadow.{
  generate_salt, read_file, joined, updated_lines, any_line, update_shadow_password,
  read_shadow_password, verify_shadow_password, delete_shadow_entry,
}
use slipper_kernel.Init.Auth.Shadow.Delete.{read-delete_shadow_entry}
use slipper_kernel.Init.Auth.Shadow.Update.{
  new_entry, length-new_entry, update_shadow_password_lem, verify-update_shadow_password,
  read-update_shadow_password,
}

abbrev abc : List ℕ
abc = b'a' ∷ b'b' ∷ b'c' ∷ []

abbrev salt : List ℕ
salt = 0 ∷ 255 ∷ 16 ∷ 171 ∷ 1 ∷ 2 ∷ 3 ∷ 77 ∷ []

abbrev root : List ℕ
root = b'r' ∷ b'o' ∷ b'o' ∷ b't' ∷ []

sha256-digest_example : sha256 abc ≡ some (digest abc)
sha256-digest_example = sha256-digest abc

root-plain : All (λ x. x ≢ b':') root
root-plain =
    ((λ h. omega arith), ((λ h. omega arith), ((λ h. omega arith), ((λ h. omega arith), tt))))

root-line : All (λ x. x ≢ b'\n') root
root-line =
    ((λ h. omega arith), ((λ h. omega arith), ((λ h. omega arith), ((λ h. omega arith), tt))))

-- The file that is written when there was none.
new_file : List ℕ
new_file = take 4096 (joined (updated_lines root (new_entry 7 root abc) (lines (read_file none))))

new_file-run : update_shadow_password 7 none root abc ≡ some new_file
unfolding new_file
new_file-run = update_shadow_password_lem 7 none root abc

new_file-short : length new_file < 4096
unfolding new_file joined updated_lines any_line read_file lines
new_file-short =
    let written : List ℕ = new_entry 7 root abc ++ (b'\n' ∷ []) in
    omega (
      arith,
      length-take 4096 written,
      length-append (new_entry 7 root abc) (b'\n' ∷ []),
      length-new_entry 7 root abc (omega arith),
    )

verify-update_shadow_password_example :
    (verify_shadow_password (some new_file) root salt ≡ some true)
    ↔ (digest (take 72 (salt ++ generate_salt 7)) ≡ digest (take 72 (abc ++ generate_salt 7)))
verify-update_shadow_password_example =
    verify-update_shadow_password 7 none root abc salt new_file (omega arith) root-plain root-line
      new_file-run new_file-short

read-update_shadow_password_example :
    read_shadow_password (some new_file) abc ≡ read_shadow_password none abc
read-update_shadow_password_example =
    read-update_shadow_password 7 none root abc abc new_file (omega arith) root-plain root-line
      (λ e. cc) new_file-run new_file-short

-- `root:a` and `abc:b`
abbrev two_users : List ℕ
two_users = root ++ (b':' ∷ b'a' ∷ b'\n' ∷ (abc ++ (b':' ∷ b'b' ∷ b'\n' ∷ [])))

abbrev one_user : List ℕ
one_user = abc ++ (b':' ∷ b'b' ∷ b'\n' ∷ [])

deleted-run : delete_shadow_entry (some two_users) root ≡ some one_user
unfolding delete_shadow_entry lines
deleted-run = refl

read-delete_shadow_entry_example :
    (read_shadow_password (some one_user) root ≡ none)
    × (read_shadow_password (some one_user) abc ≡ read_shadow_password (some two_users) abc)
read-delete_shadow_entry_example =
    read-delete_shadow_entry two_users root abc one_user (λ e. cc) deleted-run (omega arith)

format_passwd_entry_lem_example :
    format_passwd_entry abc 1000 100 root root
    ≡ fit 256 (abc ++ (b':' ∷ b':' ∷ b':' ∷ (root ++ (b':' ∷ root))))
format_passwd_entry_lem_example =
    format_passwd_entry_lem abc root root 1000 100 (omega arith) (omega arith)

uid_of : Option PasswdEntry → Option ℕ
uid_of none = none
uid_of (some entry) = some entry.uid

-- The user 1000 is read back as the user 0.
read_back_as_root : uid_of (parse_line (format_passwd_entry abc 1000 100 root root)) ≡ some 0
unfolding uid_of parse_line format_passwd_entry
read_back_as_root = refl
