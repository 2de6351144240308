-- ===== src/Partition/FreeList.antt =====
-- storage/buffer-manager/FreeList.{hpp,cpp}: the list of free buffer frames, linked through
-- their headers.
use epsilon_db.Base.{
  ℕ, ◌+◌, ◌-◌, ◌%◌, ◌^◌, ◌≡◌, ◌≢◌, refl, Option, none, some, List, [], ◌∷◌, ◌++◌, ◌==◌,
  if◌then◌else◌, length, arith, ap, ==-true, ==-false, length-append,
}

-- `next_free_bf` is a member of the frames' headers.
pub record FreeList : Type 0 where
  pub head : Option ℕ
  pub counter : ℕ
  pub next_free_bf : ℕ → Option ℕ

unfoldable pub link : FreeList → ℕ → Option ℕ → FreeList
link l bf next = record l { next_free_bf = λ b. if b == bf then next else l.next_free_bf b }

pub batch_push : FreeList → ℕ → ℕ → ℕ → FreeList
batch_push l batch_head batch_tail batch_counter = record (link l batch_tail l.head) {
  head = some batch_head;
  counter = (l.counter + batch_counter) % 2 ^ 64;
}

unfoldable pub push : FreeList → ℕ → FreeList
push l bf = record (link l bf l.head) { head = some bf; counter = (l.counter + 1) % 2 ^ 64 }

-- `tryPop`: `none` is the jump. The waiting of the worker and its counters are left out.
unfoldable pub try_pop : FreeList → Option ℕ × FreeList
try_pop l = elim l.head [
  | none ↦ (none, l)
  | some bf ↦
      (some bf, record l { head = l.next_free_bf bf; counter = (l.counter + 2 ^ 64 - 1) % 2 ^ 64 })
]

-- The frames from one on, to the end of the links.
abbrev pub Linked : (ℕ → Option ℕ) → Option ℕ → List ℕ → Option ℕ → Type 0
Linked next start [] end = start ≡ end
Linked next start (x ∷ xs) end = (start ≡ some x) × Linked next (next x) xs end

abbrev pub Absent : ℕ → List ℕ → Type 0
Absent x [] = Unit {0}
Absent x (y ∷ ys) = (y ≢ x) × Absent x ys

-- A free list that holds these frames.
pub record Holds (l : FreeList) (xs : List ℕ) : Type 0 where
  pub linked : Linked l.next_free_bf l.head xs none
  pub counted : l.counter ≡ length xs % 2 ^ 64

relink :
    (next : ℕ → Option ℕ) (bf : ℕ) (n start end : Option ℕ) (xs : List ℕ)
    → Absent bf xs
    → Linked next start xs end
    → Linked (λ b. if b == bf then n else next b) start xs end
relink next bf n start end [] a h = h
relink next bf n start end (x ∷ xs) a h =
    (h.0, rw (==-false x bf a.0) (relink next bf n (next x) end xs a.1 h.1))

Linked-append :
    (next : ℕ → Option ℕ) (start mid end : Option ℕ) (xs ys : List ℕ)
    → Linked next start xs mid
    → Linked next mid ys end
    → Linked next start (xs ++ ys) end
Linked-append next start mid end [] ys h k = rw h k
Linked-append next start mid end (x ∷ xs) ys h k =
    (h.0, Linked-append next (next x) mid end xs ys h.1 k)

pub push-Holds :
    (l : FreeList) (bf : ℕ) (xs : List ℕ) → Absent bf xs → Holds l xs → Holds (push l bf) (bf ∷ xs)
unfolding push link
push-Holds l bf xs a h = record {
  linked =
      (refl, rw (==-true bf bf refl) (relink l.next_free_bf bf l.head l.head none xs a h.linked));
  counted = omega (arith, h.counted);
}

pop_some :
    (l : FreeList) (x : ℕ)
    → l.head ≡ some x
    → try_pop l
      ≡ (some x, record l { head = l.next_free_bf x; counter = (l.counter + 2 ^ 64 - 1) % 2 ^ 64 })
unfolding try_pop
pop_some l x e =
    ap
      (λ (h : Option ℕ). elim h [
        | none ↦ (none, l)
        | some bf ↦ (
          some bf,
          record l { head = l.next_free_bf bf; counter = (l.counter + 2 ^ 64 - 1) % 2 ^ 64 },
        )
      ])
      e

-- A batch of linked frames, with its last frame, that is pushed stands in front of the others.
pub batch_push-Holds :
    (l : FreeList) (first last : ℕ) (front xs : List ℕ)
    → Holds l xs
    → Linked l.next_free_bf (some first) front (some last)
    → Absent last front
    → Absent last xs
    → Holds (batch_push l first last (length front + 1)) (front ++ (last ∷ xs))
unfolding batch_push link
batch_push-Holds l first last front xs h b a c = record {
  linked =
      Linked-append _ (some first) (some last) none front (last ∷ xs)
        (relink l.next_free_bf last l.head (some first) (some last) front a b)
        (
          refl,
          rw (==-true last last refl) (relink l.next_free_bf last l.head l.head none xs c h.linked),
        );
  counted = omega (arith, h.counted, length-append front (last ∷ xs));
}

-- `tryPop` takes the first frame of the list, and jumps where the list is empty.
pub try_pop-Holds :
    (l : FreeList) (x : ℕ) (xs : List ℕ)
    → Holds l (x ∷ xs)
    → ((try_pop l).0 ≡ some x) × Holds (try_pop l).1 xs
try_pop-Holds l x xs h =
    rw (pop_some l x h.linked.0)
      (refl, record { linked = h.linked.1; counted = omega (arith, h.counted) })
