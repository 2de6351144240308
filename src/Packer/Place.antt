-- ===== src/Packer/Place.antt =====
-- `place`: where a page goes, and that it overlaps no other page of the batch.
use epsilon_db.Base.{
  ℕ, ◌+◌, ◌^◌, ◌≤◌, ◌<◌, ◌≡◌, Option, some, List, [], ◌∷◌, length, get_elem?, set,
}
use epsilon_db.CompressedSpace.Cpid
use epsilon_db.CompressedSpace.Cpid.{page_size}
use epsilon_db.Packer.Codec.{Image, image_ru_epoch}
use epsilon_db.Packer.{Entry, Slot, Packer, Added, push_image}
use epsilon_db.Packer.Fit.{All}

-- The entries lie one after the other from one offset to another, none of them empty.
abbrev pub Layout : ℕ → List Entry → ℕ → Type 0
Layout a [] b = a ≡ b
Layout a (e ∷ es) b = (e.offset ≡ a) × (0 < e.len) × Layout (a + e.len) es b

pub record SlotOk (s : Slot) : Type 0 where
  pub layout : Layout 0 s.content s.used
  pub fits : s.used ≤ page_size
  pub counted : s.pages ≡ length s.content
  pub small : s.block_id < 2 ^ 36

-- What a call of the packer did with a page: it stands behind the other pages of one slot,
-- within the block of that slot, at the location returned, and no other slot changed.
pub record Placed (slots : List Slot) (len : ℕ) (r : Added) : Type 0 where
  pub index : ℕ
  pub slot : Slot
  pub image : Image
  pub found : get_elem? slots index ≡ some slot
  pub after : r.packer.slots ≡ set slots index (push_image slot len image)
  pub fits : slot.used + len ≤ page_size
  pub location :
      (Cpid.block r.location ≡ slot.block_id)
      × (Cpid.offset_in_block r.location ≡ slot.used)
      × (Cpid.page_length r.location ≡ len)
  pub ru_epoch : r.ru_epoch ≡ image_ru_epoch image
  pub all_ok : All SlotOk r.packer.slots
