-- ===== src/Partition/Pids.antt =====
-- A partition hands out each of its page identifiers to one page at a time.
use mathlib.Core.Path.{subst}
use epsilon_db.Base.{
  ℕ, suc, ◌+◌, ◌%◌, ◌^◌, ◌≤◌, ◌<◌, ◌≡◌, ◌≢◌, ◌⊎◌, inl, inr, refl, List, [], ◌∷◌, ◌++◌, ◌==◌,
  if◌then◌else◌, ltb-true, ltb-false, List-cases, arith, ap, sym, ◌∙◌, map, dec_lt, ℕ_discrete,
}
use native.Mathlib.Nat.{add-mod_right}
use epsilon_db.Units.{invalid_pid}
use epsilon_db.Partition.{
  Partition, FreedPid, new_partition, unmapped, take_next, take_fresh, free_page,
}

abbrev pub occurrences : ℕ → List ℕ → ℕ
occurrences x [] = 0
occurrences x (y ∷ ys) = (if x == y then 1 else 0) + occurrences x ys

-- A partition with the page identifiers that are in use.
pub record Use : Type 0 where
  pub partition : Partition
  pub in_use : List ℕ

abbrev pub freed : Partition → List ℕ
freed p = map (λ (f : FreedPid). f.pid) p.freed_pids

-- A page is allocated where an identifier is left, or one that is in use is freed.
pub data Turn : Use → Use → Type 0 where
  allocate :
      (u : Use)
      → (take_next u.partition).0.pid ≢ invalid_pid
      → Turn u (record {
        partition = (take_next u.partition).1;
        in_use = (take_next u.partition).0.pid ∷ u.in_use;
      })
  give_back :
      (u : Use) (xs ys : List ℕ) (f : FreedPid)
      → u.in_use ≡ xs ++ (f.pid ∷ ys)
      → Turn u (record { partition = free_page u.partition f; in_use = xs ++ ys })

pub data Turns : Use → Use → Type 0 where
  start : (u : Use) → Turns u u
  turn : {u v w : Use} → Turns u v → Turn v w → Turns u w

-- An identifier occurs once at most, and only those occur that the partition has handed out.
pub record PidsOk (first : ℕ) (u : Use) : Type 0 where
  pub once : (x : ℕ) → occurrences x u.in_use + occurrences x (freed u.partition) ≤ 1
  pub handed :
      (x : ℕ)
      → 0 < occurrences x u.in_use + occurrences x (freed u.partition)
      → (x < u.partition.next_pid)
        × (x < u.partition.max_pid)
        × (x % u.partition.pid_distance ≡ first % u.partition.pid_distance)
  pub next : u.partition.next_pid % u.partition.pid_distance ≡ first % u.partition.pid_distance
  pub room : u.partition.max_pid + u.partition.pid_distance < 2 ^ 64
  pub distance : 0 < u.partition.pid_distance

occurrences-append :
    (x : ℕ) (xs ys : List ℕ) → occurrences x (xs ++ ys) ≡ occurrences x xs + occurrences x ys
occurrences-append x [] ys = omega arith
occurrences-append x (y ∷ xs) ys = omega (arith, occurrences-append x xs ys)

-- The identifiers of a partition that hands out one that nobody uses.
fresh_handed :
    (first : ℕ) (u : Use)
    → PidsOk first u
    → u.partition.next_pid < u.partition.max_pid
    → PidsOk first (record {
      partition = record u.partition {
        next_pid = (u.partition.next_pid + u.partition.pid_distance) % 2 ^ 64;
      };
      in_use = u.partition.next_pid ∷ u.in_use;
    })
fresh_handed first u k l =
    let e : (u.partition.next_pid + u.partition.pid_distance) % 2 ^ 64
        ≡ u.partition.next_pid + u.partition.pid_distance =
      omega (arith, k.room) in
    record {
      once = λ x. elim (ℕ_discrete x u.partition.next_pid) [
        | yes q ↦ ground (arith, k.once x, k.handed x)
        | no q ↦ ground (arith, k.once x)
      ];
      handed = λ x h. elim (ℕ_discrete x u.partition.next_pid) [
        | yes q ↦ (omega (arith, k.distance), omega arith, rw q k.next)
        | no q ↦ let (a, b, c) = k.handed x (ground (arith, h)) in (omega arith, b, c)
      ];
      next = rw e (add-mod_right u.partition.next_pid u.partition.pid_distance ∙ k.next);
      room = k.room;
      distance = k.distance;
    }

reused :
    (first : ℕ) (u : Use) (f : FreedPid) (fs : List FreedPid)
    → u.partition.freed_pids ≡ f ∷ fs
    → PidsOk first u
    → PidsOk first
        (record { partition = record u.partition { freed_pids = fs }; in_use = f.pid ∷ u.in_use })
reused first u f fs e k =
    let o : (x : ℕ)
        → occurrences x (freed u.partition)
          ≡ occurrences x (f.pid ∷ map (λ (g : FreedPid). g.pid) fs) =
      λ x. ap (λ (l : List FreedPid). occurrences x (map (λ (g : FreedPid). g.pid) l)) e in
    record {
      once = λ x. omega (arith, k.once x, o x);
      handed = λ x h. k.handed x (omega (arith, o x));
      next = k.next;
      room = k.room;
      distance = k.distance;
    }

from_list :
    (p : Partition) {l : List FreedPid}
    → p.freed_pids ≡ l
    → take_next p ≡ elim l [ f ∷ fs ↦ (f, record p { freed_pids = fs }) | [] ↦ take_fresh p ]
unfolding take_next
from_list p e =
    ap
      (λ (l : List FreedPid). elim l [
        | f ∷ fs ↦ (f, record p { freed_pids = fs })
        | [] ↦ take_fresh p
      ])
      e

-- What `nextPID` returns, in its three cases.
take_next-cases :
    (p : Partition)
    → ((f : FreedPid) × (fs : List FreedPid) × (p.freed_pids ≡ f ∷ fs)
        × (take_next p ≡ (f, record p { freed_pids = fs })))
      ⊎ ((p.next_pid < p.max_pid)
          × (take_next p ≡ (
            unmapped p.next_pid,
            record p { next_pid = (p.next_pid + p.pid_distance) % 2 ^ 64 },
          )))
      ⊎ (take_next p ≡ (unmapped invalid_pid, p))
unfolding take_fresh
take_next-cases p = elim (List-cases p.freed_pids) [
  | inr (f, fs, e) ↦ inl (f, fs, e, from_list p e)
  | inl e ↦ elim (dec_lt p.next_pid p.max_pid) [
    | yes l ↦ inr (inl (l, from_list p e ∙ rw (ltb-true p.next_pid p.max_pid l, take_fresh) refl))
    | no l ↦ inr (inr (from_list p e ∙ rw (ltb-false p.next_pid p.max_pid l, take_fresh) refl))
  ]
]

after_take : Use → FreedPid × Partition → Use
after_take u r = record { partition = r.1; in_use = r.0.pid ∷ u.in_use }

allocated :
    (first : ℕ) (u : Use)
    → (take_next u.partition).0.pid ≢ invalid_pid
    → PidsOk first u
    → PidsOk first (after_take u (take_next u.partition))
unfolding after_take
allocated first u h k = elim (take_next-cases u.partition) [
  | inl (f, fs, e, t) ↦
      subst (λ (r : FreedPid × Partition). PidsOk first (after_take u r)) (sym t)
        (reused first u f fs e k)
  | inr (inl (l, t)) ↦
      subst (λ (r : FreedPid × Partition). PidsOk first (after_take u r)) (sym t)
        (fresh_handed first u k l)
  | inr (inr t) ↦ absurd (h (ap (λ (r : FreedPid × Partition). r.0.pid) t))
]

pub Turn-PidsOk : {u v : Use} (first : ℕ) → Turn u v → PidsOk first u → PidsOk first v
unfolding free_page after_take
Turn-PidsOk first (give_back u xs ys f e) k = record {
  once = λ x. omega (
    arith,
    k.once x,
    ap (occurrences x) e,
    occurrences-append x xs ys,
    occurrences-append x xs (f.pid ∷ ys),
  );
  handed = λ x h. k.handed x (
      omega (
        arith,
        ap (occurrences x) e,
        occurrences-append x xs ys,
        occurrences-append x xs (f.pid ∷ ys),
      ));
  next = k.next;
  room = k.room;
  distance = k.distance;
}
Turn-PidsOk first (allocate u h) k = allocated first u h k

pub Turns-PidsOk : {u v : Use} (first : ℕ) → Turns u v → PidsOk first u → PidsOk first v
Turns-PidsOk first (start u) k = k
Turns-PidsOk first (turn r t) k = Turn-PidsOk first t (Turns-PidsOk first r k)

-- A partition as it is constructed.
abbrev pub unused : ℕ → ℕ → ℕ → Use
unused first distance max = record { partition = new_partition first distance max; in_use = [] }

unused-PidsOk :
    (first distance max : ℕ)
    → 0 < distance
    → max + distance < 2 ^ 64
    → PidsOk first (unused first distance max)
unfolding new_partition
unused-PidsOk first distance max h r = record {
  once = λ x. omega arith;
  handed = λ x p. absurd (omega arith);
  next = refl;
  room = r;
  distance = h;
}

-- However pages were allocated and freed in a partition, an identifier that `nextPID` returns
-- then is in use for no page, is below `max_pid`, and is the partition's own: its remainder by
-- the number of partitions is that of the first.
pub next_pid_lem :
    (first distance max : ℕ) {u : Use}
    → 0 < distance
    → max + distance < 2 ^ 64
    → Turns (unused first distance max) u
    → (take_next u.partition).0.pid ≢ invalid_pid
    → (occurrences (take_next u.partition).0.pid u.in_use ≡ 0)
      × ((take_next u.partition).0.pid < u.partition.max_pid)
      × ((take_next u.partition).0.pid % u.partition.pid_distance
          ≡ first % u.partition.pid_distance)
next_pid_lem first distance max {u} h r t ne =
    let k = Turns-PidsOk first t (unused-PidsOk first distance max h r) in
    elim (take_next-cases u.partition) [
      | inl (f, fs, e, q) ↦
          let o =
            ap (λ (l : List FreedPid). occurrences f.pid (map (λ (g : FreedPid). g.pid) l)) e in
          let s : occurrences f.pid (f.pid ∷ map (λ (g : FreedPid). g.pid) fs)
              ≡ suc (occurrences f.pid (map (λ (g : FreedPid). g.pid) fs)) =
            ground arith in
          rw q (
            omega (arith, k.once f.pid, o, s),
            (k.handed f.pid (omega (arith, o, s))).1,
            (k.handed f.pid (omega (arith, o, s))).2,
          )
      | inr (inl (l, q)) ↦ rw q (ground (arith, k.handed u.partition.next_pid), l, k.next)
      | inr (inr q) ↦ absurd (ne (ap (λ (r : FreedPid × Partition). r.0.pid) q))
    ]
