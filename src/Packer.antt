-- ===== src/Packer.antt =====
-- CompressedSpace.{hpp,cpp}, class BlockPacker: pages are packed into the blocks of a batch. The
-- parallel vectors are one list of slots, those in use; a slot holds the pages copied to its
-- buffer, each with its offset and length, which fill the first `used` bytes. The statistics
-- counters are left out.
pub mod Codec
pub mod Fit
pub mod Place
mod Tests
use epsilon_db.Base.{
  ℕ, zero, suc, ◌+◌, ◌*◌, ◌%◌, ◌^◌, Bool, true, false, not, ◌&&◌, ◌||◌, Option, none, some, List,
  [], ◌∷◌, ◌++◌, ◌==◌, ltb, leb, if◌then◌else◌, length, get_elem?, set, Result, ok, fail, ◌>>=◌,
  ◌>>◌, ensure, undefined_behaviour,
}
use epsilon_db.Bits.{u64_mod}
use epsilon_db.CompressedSpace.Cpid
use epsilon_db.CompressedSpace.Cpid.{page_size}
use epsilon_db.CompressedSpace.{Space, allocate_block, seal_block}
use Codec.{Image, Page, whole, image_ru_epoch, set_ru_epoch, compress_page}

-- A page in a slot's buffer: its offset, its length and its bytes.
pub record Entry : Type 0 where
  pub offset : ℕ
  pub len : ℕ
  pub image : Image

pub record Slot : Type 0 where
  pub block_id : ℕ
  pub used : ℕ
  pub pages : ℕ
  pub in_place : Bool
  pub block_ru_epoch : ℕ
  pub content : List Entry

pub record Packer : Type 0 where
  pub max_blocks : ℕ
  pub slots : List Slot
  pub sealed : Bool

-- `full()`.
pub full : Packer → Bool
full p = leb p.max_blocks (length p.slots)

-- Addition of two u32.
abbrev pub add32 : ℕ → ℕ → ℕ
add32 a b = (a + b) % 2 ^ 32

-- The test of the loop of `place`; `best` is the index and the fill of the slot found so far.
pub better : ℕ → ℕ → Option (ℕ × ℕ) → Slot → Bool
better len max_pages best s =
    (leb (add32 s.used len) page_size && ltb s.pages max_pages)
    && elim best [ none ↦ true | some (i, u) ↦ ltb u s.used ]

-- The loop of `place` from index `i` on.
pub best_fit : ℕ → ℕ → ℕ → Option (ℕ × ℕ) → List Slot → Option (ℕ × ℕ)
best_fit len max_pages i best [] = best
best_fit len max_pages i best (s ∷ slots) =
    best_fit len max_pages (i + 1) (if better len max_pages best s then some (i, s.used) else best)
      slots

-- The image gets the RU epoch of its block, if the block was recorded in an LBA chain.
pub stamp : Option ℕ → Slot → Image → Image
stamp none s image = image
stamp (some _) s image = set_ru_epoch image s.block_ru_epoch

-- The location of a page copied to the end of the slot's content.
pub location_in : Slot → ℕ → ℕ
location_in s len = Cpid.make ((s.block_id * page_size) % u64_mod + s.used) len

pub push_image : Slot → ℕ → Image → Slot
push_image s len image = record s {
  content = s.content ++ (record { offset = s.used; len = len; image = image } ∷ []);
  used = add32 s.used len;
  pages = add32 s.pages 1;
}

-- The RU epoch that `recordBlock` stores: `recorded` is what the LBA chain returned, `none` is
-- no chain, which leaves the old value.
abbrev pub epoch_of : Option ℕ → ℕ
epoch_of none = 0
epoch_of (some e) = e

-- What a call of the packer returns: the location and the RU epoch, and both states.
pub record Added : Type 0 where
  pub location : ℕ
  pub ru_epoch : ℕ
  pub packer : Packer
  pub space : Space

-- The copy into the slot at an index.
pub put_at : Packer → Space → Option ℕ → ℕ → ℕ → Image → Result Added
put_at p space recorded i len image = elim (get_elem? p.slots i) [
  | none ↦ fail undefined_behaviour
  | some s ↦
      let stamped = stamp recorded s image in
      ok (record {
        location = location_in s len;
        ru_epoch = image_ru_epoch stamped;
        packer = record p { slots = set p.slots i (push_image s len stamped) };
        space = space;
      })
]

-- A slot of a block that was just allocated.
abbrev pub empty_slot : ℕ → Option ℕ → Slot
empty_slot b recorded = record {
  block_id = b;
  used = 0;
  pages = 0;
  in_place = false;
  block_ru_epoch = epoch_of recorded;
  content = [];
}

-- `place`: the length and the image are those in the scratch buffer, `tid` is the calling writer.
pub place : ℕ → Option ℕ → Option ℕ → Packer → Space → ℕ → Image → Result Added
place max_pages tid recorded p space len image = elim (best_fit len max_pages 0 none p.slots) [
  | some (i, u) ↦ put_at p space recorded i len image
  | none ↦
      ensure (not (full p))
      >> (allocate_block space tid >>= λ r.
          put_at (record p { slots = p.slots ++ (empty_slot r.0 recorded ∷ []) }) r.1 recorded
            (length p.slots) len image)
]

-- The rewrite in place of an uncompressed page that owns its block.
pub add_in_place : Option ℕ → Packer → Space → Page → ℕ → Result Added
add_in_place recorded p space page current_location =
    let slot : Slot = record {
      block_id = Cpid.block current_location;
      used = page_size;
      pages = 1;
      in_place = true;
      block_ru_epoch = epoch_of recorded;
      content = [];
    } in
    let image = stamp recorded slot (whole page) in
    ensure (not (full p))
    >> ok (record {
      location = current_location;
      ru_epoch = image_ru_epoch image;
      packer = record p {
        slots =
            p.slots
            ++ (record slot { content = record { offset = 0; len = page_size; image = image } ∷ [] }
                ∷ []);
      };
      space = space;
    })

pub add :
    (Page → Option (List ℕ))
    → ℕ
    → Option ℕ
    → Option ℕ
    → Packer
    → Space
    → Page
    → Bool
    → ℕ
    → Result Added
add zstd_compress max_pages tid recorded p space page compress current_location =
    let packed =
      compress_page zstd_compress page >>= λ r. place max_pages tid recorded p space r.0 r.1 in
    let alone = place max_pages tid recorded p space page_size (whole page) in
    let in_place = add_in_place recorded p space page current_location in
    ensure (not p.sealed)
    >> (if not compress && (Cpid.page_length current_location == page_size)
        then in_place
        else (if compress then packed else alone))

pub add_verbatim : ℕ → Option ℕ → Option ℕ → Packer → Space → Image → ℕ → Result Added
add_verbatim max_pages tid recorded p space src len = do
  ensure (not p.sealed)
  ensure (ltb 0 len && leb len page_size)
  place max_pages tid recorded p space len src

-- The loop of `seal`. The tail of a block is filled with zeros, which the content leaves out.
pub seal_slots : List Slot → Space → Result Space
seal_slots [] space = ok space
seal_slots (s ∷ slots) space =
    (if s.in_place then ok space else seal_block space s.block_id s.used) >>= seal_slots slots

pub seal : Packer → Space → Result (Packer × Space)
seal p space =
    if p.sealed
    then ok (p, space)
    else (seal_slots p.slots space >>= λ space'. ok (record p { sealed = true }, space'))

pub reset : Packer → Result Packer
reset p = ensure (p.sealed || (length p.slots == 0)) >> ok (record p { slots = []; sealed = false })
