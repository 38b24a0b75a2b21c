-- ===== src/Init/Auth/Shadow.antt =====
-- init/src/auth.rs: the entries of /etc/shadow. A file is what open and the reads give of it, none
-- where open fails; what update_shadow_password and delete_shadow_entry give is what they hand to
-- write_fd after create. The process id that getpid gives is an argument.
pub mod Entry
pub mod Verify
pub mod Lookup
pub mod Update
pub mod Delete
use slipper_kernel.Prelude.{
  ℕ, zero, suc, ◌+◌, ◌*◌, ◌-◌, ◌/◌, ◌%◌, ◌^◌, List, [], ◌∷◌, ◌++◌, length, take, drop, get_or,
  replicate, min, map, ltb, ◌==◌, ◌||◌, if◌then◌else◌, Bool, true, false, not, Option, none, some,
  ◌>>=◌, bytes_eq,
}
use slipper_kernel.Init.Auth.Sha256.{sha256}
use slipper_kernel.Init.Auth.Hex.{bytes_to_hex, hex_decode_8, const_time_eq}
use slipper_kernel.Init.Auth.Lines.{lines, split_at, before_nul, fit}

-- `seed.wrapping_mul(1103515245).wrapping_add(12345)`
unfoldable pub next_seed : ℕ → ℕ
next_seed seed = (seed * 1103515245 + 12345) % 2 ^ 64

-- `for i in 0..n`
unfoldable pub salt_bytes : ℕ → ℕ → List ℕ
unfolding next_seed
salt_bytes zero seed = []
salt_bytes (suc n) seed = next_seed seed / 2 ^ 16 % 2 ^ 8 ∷ salt_bytes n (next_seed seed)

unfoldable pub generate_salt : ℕ → List ℕ
unfolding salt_bytes next_seed
generate_salt pid = salt_bytes 8 (next_seed pid)

-- `combined` of format_shadow_entry: the password and the salt behind it, in a buffer of 72 bytes
unfoldable pub combined : List ℕ → List ℕ → List ℕ
combined password salt = take 72 (password ++ salt)

-- the text behind the username: `:$5$`, the salt, `$` and the hash
unfoldable pub hash_field : List ℕ → List ℕ → List ℕ
hash_field salt hash =
    b'$' ∷ b'5' ∷ b'$' ∷ (take 16 (bytes_to_hex salt) ++ (b'$' ∷ take 64 (bytes_to_hex hash)))

unfoldable pub shadow_entry : List ℕ → List ℕ → List ℕ → List ℕ
unfolding hash_field fit
shadow_entry username salt hash = fit 128 (username ++ (b':' ∷ hash_field salt hash))

unfoldable pub format_shadow_entry : ℕ → List ℕ → List ℕ → Option (List ℕ)
unfolding generate_salt combined shadow_entry
format_shadow_entry pid username password =
    let salt = generate_salt pid in
    sha256 (combined password salt) >>= (λ hash. some (shadow_entry username salt hash))

-- the read loop: at most 4096 bytes
unfoldable pub read_file : Option (List ℕ) → List ℕ
read_file none = []
read_file (some bytes) = take 4096 bytes

-- the entry that is returned, in an array of 128 bytes
unfoldable pub shadow_value : List ℕ → List ℕ
shadow_value entry = take 127 entry ++ replicate (128 - min (length entry) 127) 0

-- the entry of a line that was split at its colon, if it is the user's, or what the later lines give
unfoldable pub entry_or : List ℕ → Option (List ℕ × List ℕ) → Option (List ℕ) → Option (List ℕ)
unfolding shadow_value
entry_or username none later = later
entry_or username (some (name, entry)) later =
    if bytes_eq name username then some (shadow_value entry) else later

unfoldable pub find_shadow : List ℕ → List (List ℕ) → Option (List ℕ)
unfolding entry_or split_at
find_shadow username [] = none
find_shadow username (line ∷ rest) =
    entry_or username (split_at b':' line) (find_shadow username rest)

unfoldable pub read_shadow_password : Option (List ℕ) → List ℕ → Option (List ℕ)
unfolding read_file find_shadow
read_shadow_password file username = find_shadow username (lines (read_file file))

-- `combined` of verify_shadow_password, which fills a buffer of its own
unfoldable pub verify_combined : List ℕ → List ℕ → List ℕ
verify_combined password salt = take 72 (password ++ salt)

-- the part of verify_shadow_password behind the test of the lengths
unfoldable pub verify_hash : List ℕ → List ℕ → List ℕ → Option Bool
unfolding verify_combined
verify_hash salt_hex stored_hash_hex password =
    sha256 (verify_combined password (hex_decode_8 salt_hex))
    >>= (λ hash. some (const_time_eq (take 64 (bytes_to_hex hash)) (take 64 stored_hash_hex)))

-- the part behind the test of `$5$`
unfoldable pub verify_fields : Option (List ℕ × List ℕ) → List ℕ → Option Bool
unfolding verify_hash
verify_fields none password = some false
verify_fields (some (salt_hex, stored_hash_hex)) password =
    if not (length salt_hex == 16) || ltb (length stored_hash_hex) 64
    then some false
    else verify_hash salt_hex stored_hash_hex password

unfoldable pub verify_stored : List ℕ → List ℕ → Option Bool
unfolding verify_fields
verify_stored stored password =
    let text = before_nul stored in
    if ltb (length text) 3
      || not (get_or text 0 0 == b'$')
      || not (get_or text 1 0 == b'5')
      || not (get_or text 2 0 == b'$')
    then some false
    else verify_fields (split_at b'$' (drop 3 text)) password

unfoldable pub verify_found : Option (List ℕ) → List ℕ → Option Bool
unfolding verify_stored
verify_found none password = some false
verify_found (some stored) password = verify_stored stored password

unfoldable pub verify_shadow_password : Option (List ℕ) → List ℕ → List ℕ → Option Bool
unfolding verify_found read_shadow_password
verify_shadow_password file username password =
    verify_found (read_shadow_password file username) password

-- `name == username`, of a line split at its colon
unfoldable pub is_named : List ℕ → Option (List ℕ × List ℕ) → Bool
is_named username none = false
is_named username (some (name, entry)) = bytes_eq name username

unfoldable pub names_user : List ℕ → List ℕ → Bool
unfolding is_named split_at
names_user username line = is_named username (split_at b':' line)

unfoldable pub updated_line : List ℕ → List ℕ → List ℕ → List ℕ
unfolding names_user
updated_line username entry line = if names_user username line then entry else line

unfoldable pub any_line : List ℕ → List (List ℕ) → Bool
unfolding names_user
any_line username [] = false
any_line username (line ∷ rest) = names_user username line || any_line username rest

-- The lines of the new file: the entry in place of the user's lines, or at the end.
unfoldable pub updated_lines : List ℕ → List ℕ → List (List ℕ) → List (List ℕ)
unfolding updated_line any_line
updated_lines username entry ls =
    map (updated_line username entry) ls ++ (if any_line username ls then [] else entry ∷ [])

-- each line with a newline behind it
unfoldable pub joined : List (List ℕ) → List ℕ
joined [] = []
joined (line ∷ rest) = line ++ (b'\n' ∷ joined rest)

unfoldable pub update_shadow_password : ℕ → Option (List ℕ) → List ℕ → List ℕ → Option (List ℕ)
unfolding format_shadow_entry updated_lines joined read_file
update_shadow_password pid file username new_password =
    format_shadow_entry pid username new_password
    >>= (λ entry. some (take 4096 (joined (updated_lines username entry (lines (read_file file))))))

-- whether a line, split at its colon, is copied
unfoldable pub is_kept : List ℕ → Option (List ℕ × List ℕ) → Bool
is_kept username none = false
is_kept username (some (name, entry)) = not (bytes_eq name username)

unfoldable pub kept_lines : List ℕ → List (List ℕ) → List (List ℕ)
unfolding is_kept split_at
kept_lines username [] = []
kept_lines username (line ∷ rest) =
    let later = kept_lines username rest in
    if is_kept username (split_at b':' line) then line ∷ later else later

-- none is the error of open; delete_passwd_entry is the same on the other file.
unfoldable pub delete_shadow_entry : Option (List ℕ) → List ℕ → Option (List ℕ)
unfolding kept_lines joined read_file
delete_shadow_entry none username = none
delete_shadow_entry (some bytes) username =
    some (take 4096 (joined (kept_lines username (lines (read_file (some bytes))))))
