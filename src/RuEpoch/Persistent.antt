-- ===== src/RuEpoch/Persistent.antt =====
-- The elements of the persistent RU state do not overlap and lie within its size.
use epsilon_db.Base.{
  ℕ, ◌+◌, ◌*◌, ◌%◌, ◌^◌, ◌≤◌, ◌<◌, ◌≡◌, ◌⊎◌, inl, inr, refl, arith, true, ok, ltb-true, dec_lt,
  Result,
}
use native.Mathlib.Nat.{mul-le-mul_right, suc-mul, mod-eq_of_lt}
use epsilon_db.Align.{up_align_8}
use epsilon_db.RuEpoch.{
  block_total_offset, total_offset, chain_head_offset, chain_heads_offset, size_for,
}

-- An element of the state: a counter of four bytes, or a chain head of eight.
pub data Element : Type 0 where
  block_total_of total_of : ℕ → ℕ → Element
  chain_head_of : ℕ → Element

-- A RUH below MAX_RUHS and an index below the number of RU epochs.
abbrev pub Valid : ℕ → Element → Type 0
Valid max (block_total_of ruh i) = (ruh < 3) × (i < max)
Valid max (total_of ruh i) = (ruh < 3) × (i < max)
Valid max (chain_head_of i) = i < max

abbrev pub offset_of : ℕ → Element → Result ℕ
offset_of max (block_total_of ruh i) = block_total_offset max ruh i
offset_of max (total_of ruh i) = total_offset max ruh i
offset_of max (chain_head_of i) = chain_head_offset true max i

abbrev pub element_bytes : Element → ℕ
element_bytes (block_total_of ruh i) = 4
element_bytes (total_of ruh i) = 4
element_bytes (chain_head_of i) = 8

row_lt : (q r m i : ℕ) → q < r → i < m → q * m + i < r * m
row_lt q r m i h k = omega (arith, mul-le-mul_right m h, suc-mul q m, k)

-- Where an element is.
stands_at : ℕ → Element → ℕ
stands_at max (block_total_of ruh i) = 80 + (ruh * max + i) * 4
stands_at max (total_of ruh i) = 80 + ((3 + ruh) * max + i) * 4
stands_at max (chain_head_of i) = chain_heads_offset max + i * 8

offset_of-stands_at : (max : ℕ) (a : Element) → Valid max a → offset_of max a ≡ ok (stands_at max a)
unfolding stands_at block_total_offset total_offset chain_head_offset
offset_of-stands_at max (block_total_of ruh i) v = rw (ltb-true i max v.1) refl
offset_of-stands_at max (total_of ruh i) v = rw (ltb-true i max v.1) refl
offset_of-stands_at max (chain_head_of i) v = rw (mod-eq_of_lt v) refl

-- Two counters are the same or apart.
counters_apart :
    (m r i q j : ℕ)
    → i < m
    → j < m
    → ((r ≡ q) × (i ≡ j))
      ⊎ (80 + (r * m + i) * 4 + 4 ≤ 80 + (q * m + j) * 4)
      ⊎ (80 + (q * m + j) * 4 + 4 ≤ 80 + (r * m + i) * 4)
counters_apart m r i q j hi hj = elim (dec_lt r q) [
  | yes l ↦ inr (inl (omega (arith, row_lt r q m i l hi)))
  | no nl ↦ elim (dec_lt q r) [
    | yes l ↦ inr (inr (omega (arith, row_lt q r m j l hj)))
    | no nr ↦
        let e : r ≡ q = omega (arith, nl, nr) in
        let rows : r * m ≡ q * m = rw e refl in
        elim (dec_lt i j) [
          | yes l ↦ inr (inl (omega (arith, rows, l)))
          | no ni ↦ elim (dec_lt j i) [
            | yes l ↦ inr (inr (omega (arith, rows, l)))
            | no nj ↦ inl (e, omega (arith, ni, nj))
          ]
        ]
  ]
]

heads_at :
    (max : ℕ)
    → max < 2 ^ 32
    → (4096 + 24 * max ≤ chain_heads_offset max)
      × (size_for max true ≡ chain_heads_offset max + max * 8)
      × (chain_heads_offset max < 2 ^ 40)
unfolding chain_heads_offset size_for
heads_at max h =
    let e = up_align_8 ((4096 + 2 * max * 3 * 4) % 2 ^ 64) (omega arith) in
    (omega (arith, e), omega (arith, e), omega (arith, e))

Apart : ℕ → Element → Element → Type 0
Apart max a b =
    (a ≡ b)
    ⊎ (stands_at max a + element_bytes a ≤ stands_at max b)
    ⊎ (stands_at max b + element_bytes b ≤ stands_at max a)

counter_below :
    (max r i : ℕ) → max < 2 ^ 32 → r < 6 → i < max → 80 + (r * max + i) * 4 + 4 ≤ 80 + 24 * max
counter_below max r i h k l = omega (arith, row_lt r 6 max i k l)

stands_at-Apart :
    (max : ℕ) (a b : Element) → max < 2 ^ 32 → Valid max a → Valid max b → Apart max a b
unfolding Apart stands_at
stands_at-Apart max (block_total_of r i) (block_total_of q j) h v w =
    elim (counters_apart max r i q j v.1 w.1) [ inl e ↦ inl (rw (e.0, e.1) refl) | inr k ↦ inr k ]
stands_at-Apart max (block_total_of r i) (total_of q j) h v w =
    elim (counters_apart max r i (3 + q) j v.1 w.1) [
      | inl e ↦ absurd (omega (arith, e.0, v.0))
      | inr k ↦ inr k
    ]
stands_at-Apart max (total_of r i) (block_total_of q j) h v w =
    elim (counters_apart max (3 + r) i q j v.1 w.1) [
      | inl e ↦ absurd (omega (arith, e.0, w.0))
      | inr k ↦ inr k
    ]
stands_at-Apart max (total_of r i) (total_of q j) h v w =
    elim (counters_apart max (3 + r) i (3 + q) j v.1 w.1) [
      | inl e ↦ let e0 : r ≡ q = omega (arith, e.0) in inl (rw (e0, e.1) refl)
      | inr k ↦ inr k
    ]
stands_at-Apart max (block_total_of r i) (chain_head_of j) h v w =
    inr (inl (omega (arith, counter_below max r i h (omega (arith, v.0)) v.1, (heads_at max h).0)))
stands_at-Apart max (total_of r i) (chain_head_of j) h v w = inr (
    inl (omega (arith, counter_below max (3 + r) i h (omega (arith, v.0)) v.1, (heads_at max h).0)))
stands_at-Apart max (chain_head_of i) (block_total_of r j) h v w =
    inr (inr (omega (arith, counter_below max r j h (omega (arith, w.0)) w.1, (heads_at max h).0)))
stands_at-Apart max (chain_head_of i) (total_of r j) h v w = inr (
    inr (omega (arith, counter_below max (3 + r) j h (omega (arith, w.0)) w.1, (heads_at max h).0)))
stands_at-Apart max (chain_head_of i) (chain_head_of j) h v w = elim (dec_lt i j) [
  | yes l ↦ inr (inl (omega (arith, l)))
  | no ni ↦ elim (dec_lt j i) [
    | yes l ↦ inr (inr (omega (arith, l)))
    | no nj ↦ let e : i ≡ j = omega (arith, ni, nj) in inl (rw e refl)
  ]
]

stands_at-bound :
    (max : ℕ) (a : Element)
    → max < 2 ^ 32
    → Valid max a
    → stands_at max a + element_bytes a ≤ size_for max true
unfolding stands_at
stands_at-bound max (block_total_of r i) h v = omega (
  arith,
  counter_below max r i h (omega (arith, v.0)) v.1,
  (heads_at max h).0,
  (heads_at max h).1,
)
stands_at-bound max (total_of r i) h v = omega (
  arith,
  counter_below max (3 + r) i h (omega (arith, v.0)) v.1,
  (heads_at max h).0,
  (heads_at max h).1,
)
stands_at-bound max (chain_head_of i) h v = omega (arith, v, (heads_at max h).1)

-- With fewer than 2 ^ 32 open RU epochs, `blockTotal`, `total` and `chainHead` of a RUH below
-- MAX_RUHS and an index below the number of RU epochs name bytes within `sizeFor` of the state,
-- and two of them that are not the same call name bytes that do not overlap.
pub offset_of_lem :
    (max : ℕ) (a b : Element)
    → max < 2 ^ 32
    → Valid max a
    → Valid max b
    → (x y : ℕ) × (offset_of max a ≡ ok x)
      × (offset_of max b ≡ ok y)
      × (x + element_bytes a ≤ size_for max true)
      × ((a ≡ b) ⊎ (x + element_bytes a ≤ y) ⊎ (y + element_bytes b ≤ x))
unfolding Apart
offset_of_lem max a b h v w = (
  stands_at max a,
  stands_at max b,
  offset_of-stands_at max a v,
  offset_of-stands_at max b w,
  stands_at-bound max a h v,
  stands_at-Apart max a b h v w,
)
