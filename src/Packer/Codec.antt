-- ===== src/Packer/Codec.antt =====
-- namespace compression of CompressedSpace.{hpp,cpp}: what a page is stored as. zstd is a
-- parameter: a call compresses a page into at most page_size - 1 - header_size bytes or says
-- that they are too few (`none`), and the other call gives a page back or an error (`none`).
use epsilon_db.Base.{
  ℕ, ◌+◌, ◌-◌, ◌*◌, ◌/◌, ◌%◌, ◌^◌, ◌≤◌, ◌<◌, ◌≡◌, refl, ◌&&◌, Option, none, some, List, ◌==◌, ltb,
  leb, if◌then◌else◌, length, Result, ok, fail, ◌>>◌, ensure, ensure_failed, undefined_behaviour,
  arith, ap, Option-cases, inl, inr,
}
use Prim.Native.Nat.{bit_and, bit_or}
use epsilon_db.Bits.{shl, shr, bit_not, bit_and_low, bit_and_high, bit_or_fields}
use epsilon_db.CompressedSpace.Cpid.{page_size}

-- BufferFrame::Page, by the two fields that this code reads and the bytes of the rest.
pub record Page : Type 0 where
  pub ru_epoch : ℕ
  pub magic_debugging_number : ℕ
  pub rest : List ℕ

pub record CompressedPageHeader : Type 0 where
  pub ru_epoch : ℕ
  pub pid_and_length : ℕ

abbrev pub header_size : ℕ
header_size = 16

abbrev pub pid_mask : ℕ
pid_mask = shl 1 48 - 1

pub header_pid : CompressedPageHeader → ℕ
header_pid h = bit_and h.pid_and_length pid_mask

pub header_length : CompressedPageHeader → ℕ
header_length h = shr h.pid_and_length 48 % 2 ^ 32

-- The bytes of a stored page: the page as it is, or a header and a zstd frame.
pub data Image : Type 0 where
  whole : Page → Image
  compressed : CompressedPageHeader → List ℕ → Image

-- `ruEpoch`, or the RU epoch in an uncompressed page.
unfoldable pub image_ru_epoch : Image → ℕ
image_ru_epoch (whole p) = p.ru_epoch
image_ru_epoch (compressed h frame) = h.ru_epoch

-- `setRUEpoch`, or the store to the RU epoch of an uncompressed page.
unfoldable pub set_ru_epoch : Image → ℕ → Image
set_ru_epoch (whole p) e = whole (record p { ru_epoch = e })
set_ru_epoch (compressed h frame) e = compressed (record h { ru_epoch = e }) frame

module _ (zstd_compress : Page → Option (List ℕ)) where
  -- The length and the image.
  pub compress_page : Page → Result (ℕ × Image)
  compress_page p = elim (zstd_compress p) [
    | none ↦ ok (page_size, whole p)
    | some frame ↦
        let len = header_size + length frame in
        ensure (bit_and p.magic_debugging_number (bit_not pid_mask) == 0)
        >> ok (
          len,
          compressed
              (record {
                ru_epoch = p.ru_epoch;
                pid_and_length = bit_or (shl len 48) p.magic_debugging_number;
              })
              frame,
        )
  ]

module _ (zstd_decompress : List ℕ → Option Page) where
  -- A length of page_size says that the image is a page, a smaller one that it has a header. Read
  -- the other way an image is garbage: `undefined_behaviour`.
  pub decompress_page : Image → ℕ → Result Page
  decompress_page (whole p) len =
      ensure (ltb 0 len && leb len page_size)
      >> (if len == page_size then ok p else fail undefined_behaviour)
  decompress_page (compressed h frame) len =
      ensure (ltb 0 len && leb len page_size)
      >> (if len == page_size
          then fail undefined_behaviour
          else (ensure (ltb header_size len) >> elim (zstd_decompress frame) [
            | none ↦ fail ensure_failed
            | some p ↦ ok (record p { ru_epoch = h.ru_epoch })
          ]))

abbrev word_of : Image → ℕ
word_of (whole p) = 0
word_of (compressed h frame) = h.pid_and_length

shl_small : (n : ℕ) → n < 2 ^ 13 → shl n 48 ≡ n * 2 ^ 48
shl_small n h = omega arith

module _ (zstd_compress : Page → Option (List ℕ)) (zstd_decompress : List ℕ → Option Page) where
  -- What the code relies on: frames are not empty and fit the buffer, and decompress to the page.
  pub record IsZstd : Type 0 where
    pub fits :
        (p : Page) (frame : List ℕ)
        → zstd_compress p ≡ some frame
        → (0 < length frame) × (length frame ≤ page_size - 1 - header_size)
    pub round_trip :
        (p : Page) (frame : List ℕ) → zstd_compress p ≡ some frame → zstd_decompress frame ≡ some p

  -- A page whose PID fits 48 bits compresses to at most page_size bytes; the image, moved to
  -- another RU epoch without being compressed again, decompresses to the page with that RU epoch,
  -- and a compressed image says its own PID and length.
  pub compress_page_round_trip :
      (z : IsZstd) (p : Page) (e : ℕ)
      → p.magic_debugging_number < 2 ^ 48
      → (len : ℕ) × (image : Image) × (compress_page zstd_compress p ≡ ok (len, image))
        × (0 < len)
        × (len ≤ page_size)
        × (decompress_page zstd_decompress (set_ru_epoch image e) len
            ≡ ok (record p { ru_epoch = e }))
        × (decompress_page zstd_decompress image len ≡ ok p)
        × ((h : CompressedPageHeader) (frame : List ℕ)
            → image ≡ compressed h frame
            → (header_pid h ≡ p.magic_debugging_number) × (header_length h ≡ len))
  unfolding compress_page decompress_page set_ru_epoch header_pid header_length
  compress_page_round_trip z p e small = elim (Option-cases (zstd_compress p)) [
    | inl none' ↦ (
      page_size,
      whole p,
      rw (none', compress_page),
      omega arith,
      omega arith,
      refl,
      refl,
      λ h frame eq. cc,
    )
    | inr (frame, some') ↦
        let m : ℕ = p.magic_debugging_number in
        let len : ℕ = 16 + length frame in
        let fits = z.fits p frame some' in
        let word : bit_or (shl len 48) m ≡ len * 2 ^ 48 + m =
          rw (shl_small len (omega arith)) (bit_or_fields 48 len m small) in
        let h : CompressedPageHeader = record {
          ru_epoch = p.ru_epoch;
          pid_and_length = bit_or (shl len 48) m;
        } in
        (
          len,
          compressed h frame,
          rw (some', compress_page)
              (ground (arith, bit_and_high 48 m 65535, bit_and_low 16 (m / 2 ^ 48))),
          omega arith,
          omega arith,
          ground (arith, z.round_trip p frame some'),
          ground (arith, z.round_trip p frame some'),
          λ h' frame' eq.
              let w : h'.pid_and_length ≡ len * 2 ^ 48 + m = ground (arith, word, ap word_of eq) in
              (ground (arith, w, bit_and_low 48 h'.pid_and_length), ground (arith, w)),
        )
  ]
