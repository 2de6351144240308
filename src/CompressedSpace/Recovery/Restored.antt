-- ===== src/CompressedSpace/Recovery/Restored.antt =====
-- The space that `recover` builds has the invariant.
use mathlib.Core.Path.{subst}
use epsilon_db.Base.{
  ℕ, zero, suc, ◌+◌, ◌^◌, ◌≤◌, ◌<◌, ◌≡◌, ◌⊎◌, inl, inr, refl, Bool, true, false, ◌&&◌, Option, none,
  some, List, [], ◌∷◌, ◌==◌, ltb, leb, leb→le, ltb→lt, if◌then◌else◌, length, take, Result, ok,
  fail, setup_failed, ◌>>◌, ensure, ensure-eq-ok, >>=-eq-ok, ok-injective, arith, ap, sym, ◌∙◌,
  Bool-cases, dec_lt, ℕ_discrete,
}
use epsilon_db.CompressedSpace.Cpid.{page_size}
use epsilon_db.CompressedSpace.Cpid
use epsilon_db.CompressedSpace.Lists.{update, occurrences, occurrences-append, total}
use epsilon_db.CompressedSpace.{Space, init, free_block, sealed_block}
use epsilon_db.CompressedSpace.Invariant.{Inv, Sound, listed, entries, expected}
use epsilon_db.CompressedSpace.Recovery.{
  add_pages, add_raw_blocks, free_below, restored, recover_maps, recover, space_map_magic,
}

-- Live bytes are of used blocks, and at most a block of them.
record LiveOk (next : ℕ) (live : ℕ → ℕ) : Type 0 where
  few : (b : ℕ) → live b ≤ page_size
  used : (b : ℕ) → next ≤ b → live b ≡ 0

update-LiveOk :
    (next b n : ℕ) (live : ℕ → ℕ)
    → LiveOk next live
    → b < next
    → n ≤ page_size
    → LiveOk next (update live b n)
update-LiveOk next b n live k h p = record {
  few = λ c. ground (arith, k.few c);
  used = λ c q. ground (arith, k.used c);
}

add_pages-LiveOk :
    (next : ℕ) (locs : List ℕ) (live out : ℕ → ℕ)
    → LiveOk next live
    → add_pages next locs live ≡ ok out
    → LiveOk next out
unfolding add_pages
add_pages-LiveOk next [] live out k h = rw⁻¹ (ok-injective h) k
add_pages-LiveOk next (loc ∷ locs) live out k h =
    let b : ℕ = Cpid.block loc in
    let bytes : ℕ = live b + Cpid.page_length loc in
    let added : Result (ℕ → ℕ) =
      ensure (ltb b next)
      >> (ensure (leb (Cpid.offset_in_block loc + Cpid.page_length loc) page_size)
          >> (ensure (leb bytes page_size) >> add_pages next locs (update live b bytes))) in
    elim (Bool-cases (Cpid.on_ssd loc)) [
      | inr e ↦
          add_pages-LiveOk next locs live out k
            (ap (λ (c : Bool). if c then added else add_pages next locs live) (sym e) ∙ h)
      | inl e ↦
          let g : added ≡ ok out =
            ap (λ (c : Bool). if c then added else add_pages next locs live) (sym e) ∙ h in
          let (p1, g1) = ensure-eq-ok (ltb b next) _ g in
          let (p2, g2) =
            ensure-eq-ok (leb (Cpid.offset_in_block loc + Cpid.page_length loc) page_size) _ g1 in
          let (p3, g3) = ensure-eq-ok (leb bytes page_size) _ g2 in
          add_pages-LiveOk next locs (update live b bytes) out
            (update-LiveOk next b bytes live k (ltb→lt b next p1) (leb→le bytes page_size p3)) g3
    ]

add_raw_blocks-LiveOk :
    (next : ℕ) (bs : List ℕ) (live out : ℕ → ℕ)
    → LiveOk next live
    → add_raw_blocks next bs live ≡ ok out
    → LiveOk next out
unfolding add_raw_blocks
add_raw_blocks-LiveOk next [] live out k h = rw⁻¹ (ok-injective h) k
add_raw_blocks-LiveOk next (b ∷ bs) live out k h =
    let (p1, g1) = ensure-eq-ok (ltb b next) _ h in
    let (p2, g2) = ensure-eq-ok (live b == 0) _ g1 in
    add_raw_blocks-LiveOk next bs (update live b page_size) out
      (update-LiveOk next b page_size live k (ltb→lt b next p1) (omega arith)) g2

occurrences-free_below :
    (n : ℕ) (live : ℕ → ℕ) (b : ℕ)
    → occurrences b (free_below n live) ≡ (if ltb b n && (live b == 0) then 1 else 0)
unfolding free_below occurrences
occurrences-free_below zero live b = ground arith
occurrences-free_below (suc n) live b = elim (Bool-cases (live n == 0)) [
  | inl e ↦ rw e (
      occurrences-append b (free_below n live) (n ∷ []) ∙ elim (ℕ_discrete n b) [
        | yes q ↦ ground (arith, occurrences-free_below n live b, ap live q)
        | no q ↦ ground (arith, occurrences-free_below n live b)
      ])
  | inr e ↦ rw e (
      occurrences-append b (free_below n live) [] ∙ elim (ℕ_discrete n b) [
        | yes q ↦ ground (arith, occurrences-free_below n live b, ap live q)
        | no q ↦ ground (arith, occurrences-free_below n live b)
      ])
]

total-empty : (m : List ℕ → ℕ) (n : ℕ) → m [] ≡ 0 → total m n (λ _. []) ≡ 0
unfolding total
total-empty m zero h = refl
total-empty m (suc n) h = omega (arith, h, total-empty m n h)

restored-Sound :
    (blocks pages writers next pids_end : ℕ) (ps es : List ℕ) (live : ℕ → ℕ) (b : ℕ)
    → next ≤ blocks
    → LiveOk next live
    → Sound (restored (init blocks pages writers) next pids_end ps es live) b
unfolding restored init
restored-Sound blocks pages writers next pids_end ps es live b le k = elim (dec_lt b next) [
  | no p ↦ record {
    idle = λ h. k.used b (omega arith);
    live = λ h. absurd (ground (arith, h, p));
    unused = λ h. ground (arith, p);
    outside = λ h. ground (arith, p);
  }
  | yes p ↦ elim (ℕ_discrete (live b) 0) [
    | yes e ↦ record {
      idle = λ h. e;
      live = λ h. absurd (ground (arith, h, p, e));
      unused = λ h. absurd (omega (arith, h));
      outside = λ h. absurd (omega (arith, h, le));
    }
    | no e ↦ record {
      idle = λ h. absurd (ground (arith, h, p, e));
      live = λ h. (omega arith, k.few b);
      unused = λ h. absurd (omega (arith, h));
      outside = λ h. absurd (omega (arith, h, le));
    }
  ]
]

restored-Inv :
    (blocks pages writers next pids_end : ℕ) (ps es : List ℕ) (live : ℕ → ℕ)
    → blocks ≤ 2 ^ 36
    → next ≤ blocks
    → LiveOk next live
    → Inv (restored (init blocks pages writers) next pids_end ps es live)
unfolding restored init listed entries expected occurrences
restored-Inv blocks pages writers next pids_end ps es live small le k = record {
  small = small;
  sound = λ b. restored-Sound blocks pages writers next pids_end ps es live b le k;
  once = λ b. elim (dec_lt b next) [
    | yes p ↦
        ground
          (arith, p, occurrences-free_below next live b, total-empty (occurrences b) writers refl)
    | no p ↦
        ground
          (arith, p, occurrences-free_below next live b, total-empty (occurrences b) writers refl)
  ];
  counted = omega (arith, total-empty length writers refl);
}

-- What a block is after a restart, the lists of the writers being empty: free and once in the
-- shared list, sealed with live bytes and in no list, or never used and in no list.
abbrev pub Settled : Space → ℕ → Type 0
Settled t b =
    ((b < t.next_unused_block)
      × (t.live_bytes b ≡ 0)
      × (t.block_states b ≡ free_block)
      × (occurrences b t.shared_free_list ≡ 1))
    ⊎ ((b < t.next_unused_block)
        × (0 < t.live_bytes b)
        × (t.block_states b ≡ sealed_block)
        × (occurrences b t.shared_free_list ≡ 0))
    ⊎ ((t.next_unused_block ≤ b)
        × (t.live_bytes b ≡ 0)
        × (t.block_states b ≡ free_block)
        × (occurrences b t.shared_free_list ≡ 0))

restored-Settled :
    (blocks pages writers next pids_end : ℕ) (ps es : List ℕ) (live : ℕ → ℕ) (b : ℕ)
    → LiveOk next live
    → Settled (restored (init blocks pages writers) next pids_end ps es live) b
unfolding restored init
restored-Settled blocks pages writers next pids_end ps es live b k =
    let o = occurrences-free_below next live b in
    elim (dec_lt b next) [
      | no p ↦ inr (
          inr (
            omega (arith, p),
            k.used b (omega (arith, p)),
            ground (arith, p),
            ground (arith, p, o),
          ))
      | yes p ↦ elim (ℕ_discrete (live b) 0) [
        | yes e ↦ inl (p, e, ground (arith, p, e), ground (arith, p, e, o))
        | no e ↦ inr (inl (p, omega (arith, e), ground (arith, p, e), ground (arith, p, e, o)))
      ]
    ]

init-LiveOk : (blocks pages writers next : ℕ) → LiveOk next (init blocks pages writers).live_bytes
unfolding init
init-LiveOk blocks pages writers next = record { few = λ b. omega arith; used = λ b h. refl }

next_inside :
    (blocks pages writers next pids_end : ℕ)
    → (leb next (init blocks pages writers).blocks_count
        && leb pids_end (init blocks pages writers).logical_pages)
      ≡ true
    → next ≤ blocks
unfolding init
next_inside blocks pages writers next pids_end h = ground (arith, h)

if-ok :
    (b : Bool) (m : Result Space) {t : Space}
    → (if b then m else fail setup_failed) ≡ ok t
    → (b ≡ true) × (m ≡ ok t)
if-ok true m h = (refl, h)
if-ok false m h = cc

recover_maps-Inv :
    (blocks pages writers next pids_end : ℕ) (words raw_blocks : List ℕ) (t : Space)
    → blocks ≤ 2 ^ 36
    → recover_maps (init blocks pages writers) next pids_end words raw_blocks ≡ ok t
    → Inv t × ((b : ℕ) → Settled t b)
unfolding recover_maps
recover_maps-Inv blocks pages writers next pids_end words raw_blocks t small h =
    let s = init blocks pages writers in
    let (p1, h1) = ensure-eq-ok (leb next s.blocks_count && leb pids_end s.logical_pages) _ h in
    let (p2, h2) = ensure-eq-ok (leb (pids_end + next) (length words)) _ h1 in
    let (live, e3, h3) = >>=-eq-ok (add_pages next (take pids_end words) s.live_bytes) _ h2 in
    let (all, e4, h4) = >>=-eq-ok (add_raw_blocks next raw_blocks live) _ h3 in
    let k1 =
      add_pages-LiveOk next (take pids_end words) s.live_bytes live
        (init-LiveOk blocks pages writers next) e3 in
    let k2 = add_raw_blocks-LiveOk next raw_blocks live all k1 e4 in
    (
      subst Inv (ok-injective h4) (
          restored-Inv blocks pages writers next pids_end _ _ all small
            (next_inside blocks pages writers next pids_end p1) k2),
      λ b.
          subst (λ (x : Space). Settled x b) (ok-injective h4)
            (restored-Settled blocks pages writers next pids_end _ _ all b k2),
    )

-- Where `recover` succeeds on a new space of at most 2^36 blocks, whatever the file and the
-- blocks of the LBA chain are, the space has its invariant, and no block is open: every block
-- that was used is free, without live bytes and once in the shared list, or sealed with live
-- bytes and not in that list, and every other block is free and not in that list.
pub recover-Inv :
    (blocks pages writers : ℕ) (file : Option (List ℕ)) (raw_blocks : List ℕ) (t : Space)
    → blocks ≤ 2 ^ 36
    → recover (init blocks pages writers) file raw_blocks ≡ ok t
    → Inv t × ((b : ℕ) → Settled t b)
unfolding recover
recover-Inv blocks pages writers none raw t small h = cc
recover-Inv blocks pages writers (some []) raw t small h = cc
recover-Inv blocks pages writers (some (a ∷ [])) raw t small h = cc
recover-Inv blocks pages writers (some (a ∷ b ∷ [])) raw t small h = cc
recover-Inv blocks pages writers (some (a ∷ b ∷ c ∷ [])) raw t small h = cc
recover-Inv blocks pages writers (some (a ∷ b ∷ c ∷ d ∷ [])) raw t small h = cc
recover-Inv blocks pages writers (some (a ∷ b ∷ c ∷ d ∷ e ∷ words)) raw t small h =
    let s = init blocks pages writers in
    let (_, h1) = if-ok (a == space_map_magic) _ h in
    let (_, h2) = if-ok ((b == s.blocks_count) && (c == s.logical_pages)) _ h1 in
    recover_maps-Inv blocks pages writers d e words raw t small h2
