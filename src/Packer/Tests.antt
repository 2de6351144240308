-- ===== src/Packer/Tests.antt =====
-- Runs of the packer, and the theorems at concrete inputs.
use epsilon_db.Base.{
  ℕ, ◌+◌, ◌*◌, ◌≤◌, ◌<◌, ◌≡◌, refl, true, false, arith, ok, fail, some, none, List, [], ◌∷◌,
  ensure_failed, ◌>>=◌, Option,
}
use epsilon_db.CompressedSpace.Cpid
use epsilon_db.CompressedSpace.Cpid.{page_size}
use epsilon_db.CompressedSpace.{init, seal_block, transition}
use epsilon_db.CompressedSpace.Tests.{used}
use epsilon_db.Packer.Codec.{
  Page, CompressedPageHeader, Image, whole, compressed, set_ru_epoch, compress_page,
  decompress_page, header_pid, header_length, IsZstd, compress_page_round_trip,
}
use epsilon_db.Packer.{
  Slot, Packer, Added, full, stamp, push_image, add, add_in_place, add_verbatim, seal_slots, seal,
  reset,
}

-- A compressor that only compresses pages with no byte but their two numbers.
abbrev toy_compress : Page → Option (List ℕ)
toy_compress p = elim p.rest [
  | [] ↦ some (p.ru_epoch ∷ p.magic_debugging_number ∷ [])
  | _ ∷ _ ↦ none
]

abbrev toy_decompress : List ℕ → Option Page
toy_decompress [] = none
toy_decompress (a ∷ []) = none
toy_decompress (a ∷ b ∷ c) = some (record { ru_epoch = a; magic_debugging_number = b; rest = [] })

toy-IsZstd : IsZstd toy_compress toy_decompress
toy-IsZstd = record { fits = λ p frame e. ground arith; round_trip = λ p frame e. ground arith }

abbrev tiny : Page
tiny = record { ru_epoch = 3; magic_debugging_number = 77; rest = [] }

compress_page_round_trip_example :
    (len : ℕ) × (image : Image) × (compress_page toy_compress tiny ≡ ok (len, image))
    × (0 < len)
    × (len ≤ page_size)
    × (decompress_page toy_decompress (set_ru_epoch image 9) len
        ≡ ok (record tiny { ru_epoch = 9 }))
    × (decompress_page toy_decompress image len ≡ ok tiny)
    × ((h : CompressedPageHeader) (frame : List ℕ)
        → image ≡ compressed h frame
        → (header_pid h ≡ tiny.magic_debugging_number) × (header_length h ≡ len))
compress_page_round_trip_example =
    compress_page_round_trip toy_compress toy_decompress toy-IsZstd tiny 9 (omega arith)

-- A slot with one page of 500 bytes, over the block of `used` that is being packed.
abbrev half : Slot
half = record {
  block_id = 2;
  used = 500;
  pages = 1;
  in_place = false;
  block_ru_epoch = 4;
  content = record { offset = 0; len = 500; image = whole tiny } ∷ [];
}

abbrev batch : Packer
batch = record { max_blocks = 2; slots = half ∷ []; sealed = false }

abbrev placed : Added
placed = record {
  location = Cpid.make (2 * 4096 + 500) 300;
  ru_epoch = 4;
  packer = record batch { slots = push_image half 300 (whole (record tiny { ru_epoch = 4 })) ∷ [] };
  space = used;
}

-- Sealing, and a page after that is refused until the batch is reset.
seal_half :
    (seal_slots batch.slots used ≡ (seal_block used 2 500 >>= λ t. ok t))
    × (add toy_compress 4 (some 0) none (record batch { sealed = true }) used tiny true 0
        ≡ fail ensure_failed)
    × (add_verbatim 4 (some 0) none (record batch { sealed = true }) used (whole tiny) 4096
        ≡ fail ensure_failed)
    × (reset (record batch { sealed = true }) ≡ ok (record batch { slots = [] }))
unfolding seal_slots init seal_block transition add add_verbatim reset
seal_half = (refl, refl, refl, refl)

seal_twice : seal (record batch { sealed = true }) used ≡ ok (record batch { sealed = true }, used)
unfolding seal
seal_twice = refl

-- An uncompressed page is rewritten where it is.
abbrev alone : ℕ
alone = Cpid.make 4096 4096

alone_page :
    (a : Added) × (add toy_compress 4 (some 0) none batch used tiny false alone ≡ ok a)
    × (a.location ≡ alone)
unfolding add add_in_place full Cpid.page_length Cpid.make stamp
alone_page = (_, refl, refl)
