-- ===== src/Init/Auth/Passwd.antt =====
-- init/src/auth.rs: the entries of /etc/passwd. A file is, as for /etc/shadow, what open and the
-- reads give of it.
pub mod Laws
use slipper_kernel.Prelude.{
  ℕ, zero, suc, ◌+◌, ◌-◌, ◌*◌, ◌/◌, ◌%◌, ◌^◌, List, [], ◌∷◌, ◌++◌, length, take, drop, get_or, set,
  replicate, ltb, leb, ◌==◌, ◌&&◌, ◌||◌, not, if◌then◌else◌, Bool, true, false, Option, none, some,
  map,
}
use slipper_kernel.Core.Parser.{slice}
use slipper_kernel.Init.Auth.Lines.{lines, split_at, before_nul, fit}
use slipper_kernel.Init.Auth.Shadow.{
  read_file, names_user, any_line, updated_line, joined, delete_shadow_entry,
}

abbrev pub max_users : ℕ
max_users = 16

pub record PasswdEntry : Type 0 where
  pub name : List ℕ
  pub uid : ℕ
  pub gid : ℕ
  pub home : List ℕ
  pub shell : List ℕ

-- `for &b in s.iter()` with the value so far
unfoldable pub parse_digits : ℕ → List ℕ → ℕ
parse_digits val [] = val
parse_digits val (b ∷ s) =
    let rest = parse_digits ((val * 10 + (b - b'0')) % 2 ^ 32) s in
    if leb b'0' b && leb b b'9' then rest else val

unfoldable pub parse_dec : List ℕ → ℕ
unfolding parse_digits
parse_dec s = parse_digits 0 s

-- The scan for colons: how many were found, at most 5, and where the fields start.
pub record Scanned : Type 0 where
  pub fields : List ℕ
  pub fi : ℕ
  pub start : ℕ

unfoldable pub scan_byte : ℕ → ℕ → Scanned → Scanned
scan_byte i b s =
    if b == b':'
    then record {
      fields = if ltb s.fi 5 then set s.fields s.fi s.start else s.fields;
      fi = if ltb s.fi 5 then s.fi + 1 else s.fi;
      start = i + 1;
    }
    else s

-- `for (i, &b) in line.iter().enumerate()`, from index `i` on
unfoldable pub scan_line : ℕ → List ℕ → Scanned → Scanned
unfolding scan_byte
scan_line i [] s = s
scan_line i (b ∷ line) s = scan_line (i + 1) line (scan_byte i b s)

unfoldable pub entry_of : List ℕ → List ℕ → PasswdEntry
unfolding parse_dec fit
entry_of line fields = record {
  name = fit 32 (slice line (get_or fields 0 0) (get_or fields 1 0 - 1));
  uid = parse_dec (slice line (get_or fields 1 0) (get_or fields 2 0 - 1));
  gid = parse_dec (slice line (get_or fields 2 0) (get_or fields 3 0 - 1));
  home = fit 64 (slice line (get_or fields 3 0) (get_or fields 4 0 - 1));
  shell = fit 32 (drop (get_or fields 4 0) line);
}

-- the entry of a line, if it has one
unfoldable pub parse_line : List ℕ → Option PasswdEntry
unfolding scan_line entry_of
parse_line line =
    let s : Scanned = scan_line 0 line (record { fields = replicate 5 0; fi = 0; start = 0 }) in
    if (length line == 0) || (get_or line 0 0 == b'#') || ltb s.fi 4
    then none
    else some (entry_of line (set s.fields 4 s.start))

-- the users that are stored, at most `room` of them
unfoldable pub parse_lines : ℕ → List (List ℕ) → List PasswdEntry
unfolding parse_line
parse_lines zero ls = []
parse_lines (suc room) [] = []
parse_lines (suc room) (line ∷ ls) = elim (parse_line line) [
  | none ↦ parse_lines (suc room) ls
  | some entry ↦ entry ∷ parse_lines room ls
]

-- the first `count` entries of the array of users
unfoldable pub parse_passwd : List ℕ → List PasswdEntry
unfolding parse_lines
parse_passwd bytes = parse_lines max_users (lines bytes)

unfoldable pub read_passwd : Option (List ℕ) → Option (List PasswdEntry)
unfolding parse_passwd read_file
read_passwd none = none
read_passwd (some bytes) = some (parse_passwd (read_file (some bytes)))

unfoldable pub find_user_by_uid : ℕ → List PasswdEntry → Option ℕ
find_user_by_uid uid [] = none
find_user_by_uid uid (e ∷ users) =
    if e.uid == uid
    then some 0
    else elim (find_user_by_uid uid users) [ none ↦ none | some i ↦ some (i + 1) ]

-- `while val > 0 && pos > 0`
unfoldable pub dec_loop : ℕ → ℕ → List ℕ → List ℕ
dec_loop zero val buf = buf
dec_loop (suc pos) val buf =
    let rest = dec_loop pos (val / 10) (set buf pos (b'0' + val % 10)) in
    if val == 0 then buf else rest

unfoldable pub format_dec : ℕ → List ℕ
unfolding dec_loop
format_dec n = if n == 0 then set (replicate 12 0) 10 b'0' else dec_loop 11 n (replicate 12 0)

unfoldable pub format_passwd_entry : List ℕ → ℕ → ℕ → List ℕ → List ℕ → List ℕ
unfolding format_dec before_nul fit
format_passwd_entry username uid gid home shell = fit 256 (
    username
    ++ (b':'
        ∷ (before_nul (format_dec uid)
            ++ (b':' ∷ (before_nul (format_dec gid) ++ (b':' ∷ (home ++ (b':' ∷ shell))))))))

-- whether a line has a colon: update_passwd_entry drops the others
unfoldable pub has_colon : Option (List ℕ × List ℕ) → Bool
has_colon none = false
has_colon (some split) = true

unfoldable pub with_colon : List (List ℕ) → List (List ℕ)
unfolding has_colon
with_colon [] = []
with_colon (line ∷ ls) =
    let rest = with_colon ls in if has_colon (split_at b':' line) then line ∷ rest else rest

unfoldable pub update_passwd_entry : Option (List ℕ) → List ℕ → ℕ → ℕ → List ℕ → List ℕ → List ℕ
unfolding format_passwd_entry with_colon read_file updated_line any_line joined
update_passwd_entry file username uid gid home shell =
    let entry = format_passwd_entry username uid gid home shell in
    let ls = with_colon (lines (read_file file)) in
    take 4096 (
      joined
        (map (updated_line username entry) ls ++ (if any_line username ls then [] else entry ∷ [])))

unfoldable pub delete_passwd_entry : Option (List ℕ) → List ℕ → Option (List ℕ)
unfolding delete_shadow_entry
delete_passwd_entry file username = delete_shadow_entry file username
