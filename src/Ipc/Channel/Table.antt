-- ===== src/Ipc/Channel/Table.antt =====
-- kernel/src/ipc/channel/channel.rs: changes of one entry of the table of channels.
use slipper_kernel.Prelude.{
  ℕ, zero, suc, ◌≡◌, ◌≢◌, refl, ap, subst, List, [], ◌∷◌, some, get_elem?, All,
}
use slipper_kernel.Ipc.Channel.{Channel, update_at}

pub get_elem?-update_at :
    (chans : List Channel) (id : ℕ) (f : Channel → Channel) (ch : Channel)
    → get_elem? chans id ≡ some ch
    → get_elem? (update_at id f chans) id ≡ some (f ch)
unfolding update_at
get_elem?-update_at [] id f ch h = cc
get_elem?-update_at (c ∷ rest) zero f ch h = cc
get_elem?-update_at (c ∷ rest) (suc id) f ch h = get_elem?-update_at rest id f ch h

pub get_elem?-update_at_ne :
    (chans : List Channel) (id other : ℕ) (f : Channel → Channel)
    → other ≢ id
    → get_elem? (update_at id f chans) other ≡ get_elem? chans other
unfolding update_at
get_elem?-update_at_ne [] id other f h = refl
get_elem?-update_at_ne (c ∷ rest) zero zero f h = absurd (h refl)
get_elem?-update_at_ne (c ∷ rest) zero (suc other) f h = refl
get_elem?-update_at_ne (c ∷ rest) (suc id) zero f h = refl
get_elem?-update_at_ne (c ∷ rest) (suc id) (suc other) f h =
    get_elem?-update_at_ne rest id other f (λ e. h (ap suc e))

pub All-update_at {ℓ} :
    (P : Channel → Type ℓ) (chans : List Channel) (id : ℕ) (f : Channel → Channel)
    → ((ch : Channel) → P ch → P (f ch))
    → All P chans
    → All P (update_at id f chans)
unfolding update_at
All-update_at P [] id f keep h = tt
All-update_at P (c ∷ rest) zero f keep (hc, hr) = (keep c hc, hr)
All-update_at P (c ∷ rest) (suc id) f keep (hc, hr) = (hc, All-update_at P rest id f keep hr)

pub All-get_elem? {ℓ} :
    (P : Channel → Type ℓ) (chans : List Channel) (id : ℕ) (ch : Channel)
    → All P chans
    → get_elem? chans id ≡ some ch
    → P ch
All-get_elem? P [] id ch all h = cc
All-get_elem? P (c ∷ rest) zero ch (hc, hr) h = let e : c ≡ ch = cc in subst P e hc
All-get_elem? P (c ∷ rest) (suc id) ch (hc, hr) h = All-get_elem? P rest id ch hr h
