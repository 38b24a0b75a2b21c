-- ===== src/Init/Auth/Shadow/Lookup.antt =====
-- init/src/auth.rs: the lines of /etc/shadow, and the entry that is found in the updated ones.
use slipper_kernel.Prelude.{
  ℕ, List, [], ◌∷◌, ◌++◌, map, ◌==◌, Bool, true, false, ◌≡◌, ◌≢◌, refl, ap, ◌∙◌, sym, arith, All,
  Option, none, some, bytes_eq, bytes_eq→≡, Bool-cases, inl, inr, if◌then◌else◌,
}
use slipper_kernel.Init.Auth.Lines.{lines, lengthen, split_at}
use slipper_kernel.Init.Auth.Lines.Laws.{All-append, lines-append}
use slipper_kernel.Init.Auth.Shadow.{
  shadow_value, entry_or, is_named, find_shadow, names_user, updated_line, any_line, updated_lines,
  joined,
}

-- no newline in it
abbrev pub IsLine : List ℕ → Type 0
IsLine xs = All (λ x. x ≢ b'\n') xs

lengthen-IsLine :
    (c : ℕ) (ls : List (List ℕ)) → c ≢ b'\n' → All IsLine ls → All IsLine (lengthen c ls)
unfolding lengthen
lengthen-IsLine c [] h k = ((h, tt), tt)
lengthen-IsLine c (line ∷ rest) h (k, ks) = ((h, k), ks)

pub lines-IsLine : (bytes : List ℕ) → All IsLine (lines bytes)
unfolding lines
lines-IsLine [] = tt
lines-IsLine (c ∷ bytes) = elim (Bool-cases (c == b'\n')) [
  | inl end ↦ rw end (tt, lines-IsLine bytes)
  | inr inside ↦
      let other : c ≢ b'\n' = λ h. ground arith in
      rw inside (lengthen-IsLine c (lines bytes) other (lines-IsLine bytes))
]

pub lines-joined : (ls : List (List ℕ)) → All IsLine ls → lines (joined ls) ≡ ls
unfolding joined
lines-joined [] h = unfold lines in refl
lines-joined (line ∷ rest) (h, hs) =
    lines-append line (joined rest) h
    ∙ ap (λ (ls : List (List ℕ)). line ∷ ls) (lines-joined rest hs)

pub bytes_eq-same : (xs : List ℕ) → bytes_eq xs xs ≡ true
bytes_eq-same [] = refl
bytes_eq-same (x ∷ xs) = let e : (x == x) ≡ true = ground arith in rw (e, bytes_eq-same xs) refl

bytes_eq-other : (xs ys : List ℕ) → xs ≢ ys → bytes_eq xs ys ≡ false
bytes_eq-other xs ys h = elim (Bool-cases (bytes_eq xs ys)) [
  | inl same ↦ absurd (h (bytes_eq→≡ xs ys same))
  | inr other ↦ other
]

entry_or-skip :
    (username : List ℕ) (split : Option (List ℕ × List ℕ)) (later : Option (List ℕ))
    → is_named username split ≡ false
    → entry_or username split later ≡ later
unfolding entry_or is_named
entry_or-skip username none later h = refl
entry_or-skip username (some (name, entry)) later h = rw h refl

-- A line that names another user is passed over.
pub find_shadow-skip :
    (username line : List ℕ) (rest : List (List ℕ))
    → names_user username line ≡ false
    → find_shadow username (line ∷ rest) ≡ find_shadow username rest
unfolding find_shadow names_user
find_shadow-skip username line rest h =
    entry_or-skip username (split_at b':' line) (find_shadow username rest) h

find_shadow-entry :
    (username line entry : List ℕ) (rest : List (List ℕ))
    → split_at b':' line ≡ some (username, entry)
    → find_shadow username (line ∷ rest) ≡ some (shadow_value entry)
unfolding find_shadow entry_or
find_shadow-entry username line entry rest e =
    ap (λ (split : Option (List ℕ × List ℕ)). entry_or username split (find_shadow username rest)) e
    ∙ rw (bytes_eq-same username) refl

pub is_named-other :
    (username other : List ℕ) (split : Option (List ℕ × List ℕ))
    → other ≢ username
    → is_named username split ≡ true
    → is_named other split ≡ false
unfolding is_named
is_named-other username other none differ h = refl
is_named-other username other (some (name, entry)) differ h =
    bytes_eq-other name other (λ same. differ (sym same ∙ bytes_eq→≡ name username h))

names_user-other :
    (username other line : List ℕ)
    → other ≢ username
    → names_user username line ≡ true
    → names_user other line ≡ false
unfolding names_user
names_user-other username other line differ h =
    is_named-other username other (split_at b':' line) differ h

names_user-entry :
    (username other line entry : List ℕ)
    → split_at b':' line ≡ some (username, entry)
    → other ≢ username
    → names_user other line ≡ false
unfolding names_user is_named
names_user-entry username other line entry e differ =
    ap (λ (split : Option (List ℕ × List ℕ)). is_named other split) e
    ∙ bytes_eq-other username other (λ same. differ (sym same))

-- In the lines that update_shadow_password makes, the user's first entry is the new one.
pub find_shadow-updated_lines :
    (username line entry : List ℕ) (ls : List (List ℕ))
    → split_at b':' line ≡ some (username, entry)
    → find_shadow username (updated_lines username line ls) ≡ some (shadow_value entry)
unfolding updated_lines updated_line any_line
find_shadow-updated_lines username line entry [] e = find_shadow-entry username line entry [] e
find_shadow-updated_lines username line entry (l ∷ ls) e =
    elim (Bool-cases (names_user username l)) [
      | inl named ↦
          rw named
            (find_shadow-entry username line entry (map (updated_line username line) ls ++ []) e)
      | inr other ↦ rw other (
          find_shadow-skip username l
            (map (updated_line username line) ls
              ++ (if any_line username ls then [] else line ∷ []))
            other
          ∙ find_shadow-updated_lines username line entry ls e)
    ]

pub find_shadow-cons :
    (username line : List ℕ) (rest rest' : List (List ℕ))
    → find_shadow username rest ≡ find_shadow username rest'
    → find_shadow username (line ∷ rest) ≡ find_shadow username (line ∷ rest')
unfolding find_shadow
find_shadow-cons username line rest rest' e =
    ap (λ (later : Option (List ℕ)). entry_or username (split_at b':' line) later) e

others_in_front :
    (username other line entry : List ℕ) (ls last : List (List ℕ))
    → split_at b':' line ≡ some (username, entry)
    → other ≢ username
    → find_shadow other last ≡ none
    → find_shadow other (map (updated_line username line) ls ++ last) ≡ find_shadow other ls
others_in_front username other line entry [] last e differ absent =
    absent ∙ unfold find_shadow in refl
others_in_front username other line entry (l ∷ ls) last e differ absent =
    let ih = others_in_front username other line entry ls last e differ absent in
    elim (Bool-cases (names_user username l)) [
      | inl named ↦
          let front : updated_line username line l ≡ line = unfold updated_line in rw named refl in
          ap
            (λ (first : List ℕ).
              find_shadow other (first ∷ (map (updated_line username line) ls ++ last)))
            front
          ∙ find_shadow-skip other line (map (updated_line username line) ls ++ last)
              (names_user-entry username other line entry e differ)
          ∙ ih
          ∙ sym (find_shadow-skip other l ls (names_user-other username other l differ named))
      | inr unnamed ↦
          let front : updated_line username line l ≡ l = unfold updated_line in rw unnamed refl in
          ap
            (λ (first : List ℕ).
              find_shadow other (first ∷ (map (updated_line username line) ls ++ last)))
            front
          ∙ find_shadow-cons other l (map (updated_line username line) ls ++ last) ls ih
    ]

-- and the entries of the other users are as before.
pub find_shadow-updated_others :
    (username other line entry : List ℕ) (ls : List (List ℕ))
    → split_at b':' line ≡ some (username, entry)
    → other ≢ username
    → find_shadow other (updated_lines username line ls) ≡ find_shadow other ls
unfolding updated_lines
find_shadow-updated_others username other line entry ls e differ =
    others_in_front username other line entry ls (if any_line username ls then [] else line ∷ []) e
      differ (absent (any_line username ls))
  where
    absent : (b : Bool) → find_shadow other (if b then [] else line ∷ []) ≡ none
    absent true = unfold find_shadow in refl
    absent false =
        find_shadow-skip other line [] (names_user-entry username other line entry e differ)
        ∙ unfold find_shadow in refl

pub updated_lines-IsLine :
    (username line : List ℕ) (ls : List (List ℕ))
    → IsLine line
    → All IsLine ls
    → All IsLine (updated_lines username line ls)
unfolding updated_lines updated_line
updated_lines-IsLine username line ls h hs =
    All-append IsLine (map (updated_line username line) ls)
      (if any_line username ls then [] else line ∷ []) (mapped ls hs) (last (any_line username ls))
  where
    last : (b : Bool) → All IsLine (if b then [] else line ∷ [])
    last true = tt
    last false = (h, tt)

    chosen : (b : Bool) (l : List ℕ) → IsLine l → IsLine (if b then line else l)
    chosen true l k = h
    chosen false l k = k

    mapped : (ls : List (List ℕ)) → All IsLine ls → All IsLine (map (updated_line username line) ls)
    mapped [] k = tt
    mapped (l ∷ ls) (k, ks) = (chosen (names_user username l) l k, mapped ls ks)
