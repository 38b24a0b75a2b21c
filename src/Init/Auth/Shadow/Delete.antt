-- ===== src/Init/Auth/Shadow/Delete.antt =====
-- init/src/auth.rs: /etc/shadow after delete_shadow_entry.
use slipper_kernel.Prelude.{
  ℕ, ◌<◌, List, [], ◌∷◌, length, take, true, false, Option, none, some, ◌≡◌, ◌≢◌, refl, ap, ◌∙◌,
  sym, arith, All, Bool-cases, inl, inr,
}
use slipper_kernel.Init.Auth.Lines.{lines, split_at}
use slipper_kernel.Init.Auth.Shadow.{
  read_file, find_shadow, names_user, is_named, read_shadow_password, is_kept, kept_lines, joined,
  delete_shadow_entry,
}
use slipper_kernel.Init.Auth.Shadow.Lookup.{
  IsLine, lines-IsLine, lines-joined, find_shadow-skip, find_shadow-cons, is_named-other,
}
use slipper_kernel.Init.Auth.Shadow.Update.{short_take}

kept_lines-IsLine :
    (username : List ℕ) (ls : List (List ℕ)) → All IsLine ls → All IsLine (kept_lines username ls)
unfolding kept_lines
kept_lines-IsLine username [] h = tt
kept_lines-IsLine username (l ∷ ls) (h, hs) =
    elim (Bool-cases (is_kept username (split_at b':' l))) [
      | inl kept ↦ rw kept (h, kept_lines-IsLine username ls hs)
      | inr dropped ↦ rw dropped (kept_lines-IsLine username ls hs)
    ]

kept-unnamed :
    (username : List ℕ) (split : Option (List ℕ × List ℕ))
    → is_kept username split ≡ true
    → is_named username split ≡ false
unfolding is_kept is_named
kept-unnamed username none h = refl
kept-unnamed username (some (name, entry)) h = ground arith

dropped-unnamed :
    (username other : List ℕ) (split : Option (List ℕ × List ℕ))
    → other ≢ username
    → is_kept username split ≡ false
    → is_named other split ≡ false
dropped-unnamed username other none differ h = unfold is_named in refl
dropped-unnamed username other (some (name, entry)) differ h =
    is_named-other username other (some (name, entry)) differ
      (unfold is_named is_kept in ground arith)

find_shadow-kept_lines :
    (username : List ℕ) (ls : List (List ℕ)) → find_shadow username (kept_lines username ls) ≡ none
unfolding kept_lines
find_shadow-kept_lines username [] = unfold find_shadow in refl
find_shadow-kept_lines username (l ∷ ls) = elim (Bool-cases (is_kept username (split_at b':' l))) [
  | inl kept ↦ rw kept (
      find_shadow-skip username l (kept_lines username ls)
        (unfold names_user in kept-unnamed username (split_at b':' l) kept)
      ∙ find_shadow-kept_lines username ls)
  | inr dropped ↦ rw dropped (find_shadow-kept_lines username ls)
]

find_shadow-kept_others :
    (username other : List ℕ) (ls : List (List ℕ))
    → other ≢ username
    → find_shadow other (kept_lines username ls) ≡ find_shadow other ls
unfolding kept_lines
find_shadow-kept_others username other [] differ = refl
find_shadow-kept_others username other (l ∷ ls) differ =
    let ih = find_shadow-kept_others username other ls differ in
    elim (Bool-cases (is_kept username (split_at b':' l))) [
      | inl kept ↦ rw kept (find_shadow-cons other l (kept_lines username ls) ls ih)
      | inr dropped ↦ rw dropped (
          ih
          ∙ sym (
              find_shadow-skip other l ls (
                unfold names_user in
                dropped-unnamed username other (split_at b':' l) differ dropped)))
    ]

lines-deleted :
    (bytes username new : List ℕ)
    → delete_shadow_entry (some bytes) username ≡ some new
    → length new < 4096
    → lines (read_file (some new)) ≡ kept_lines username (lines (read_file (some bytes)))
unfolding delete_shadow_entry
lines-deleted bytes username new run small =
    ap lines (unfold read_file in short_take (joined ls) new (some_injective (sym run)) small)
    ∙ lines-joined ls (
        kept_lines-IsLine username (lines (read_file (some bytes)))
          (lines-IsLine (read_file (some bytes))))
  where
    ls : List (List ℕ)
    ls = kept_lines username (lines (read_file (some bytes)))

    some_injective : some new ≡ some (take 4096 (joined ls)) → new ≡ take 4096 (joined ls)
    some_injective e = cc

-- After delete_shadow_entry, on a file that stays below 4096 bytes, read_shadow_password finds no
-- entry of the user, and of every other user the entry that it found before.
pub read-delete_shadow_entry :
    (bytes username other new : List ℕ)
    → other ≢ username
    → delete_shadow_entry (some bytes) username ≡ some new
    → length new < 4096
    → (read_shadow_password (some new) username ≡ none)
      × (read_shadow_password (some new) other ≡ read_shadow_password (some bytes) other)
unfolding read_shadow_password
read-delete_shadow_entry bytes username other new differ run small =
    let read = lines-deleted bytes username new run small in
    (
      ap (find_shadow username) read
          ∙ find_shadow-kept_lines username (lines (read_file (some bytes))),
      ap (find_shadow other) read
          ∙ find_shadow-kept_others username other (lines (read_file (some bytes))) differ,
    )
