-- ===== src/Btree/Key/Order.antt =====
-- `cmpKeys` is the lexicographic order, which is total.
use Prim.Native.Nat.{Ordering, lt, eq, gt, compare}
use epsilon_db.Base.{◌≡◌, refl, [], ◌∷◌, ◌++◌, length, take, drop, arith}
use epsilon_db.Btree.Key.{Key, compare_bytes, cmp_keys}

-- The lexicographic order.
abbrev pub lex : Key → Key → Ordering
lex [] [] = eq
lex [] (y ∷ ys) = lt
lex (x ∷ xs) [] = gt
lex (x ∷ xs) (y ∷ ys) = elim (compare x y) [ lt ↦ lt | eq ↦ lex xs ys | gt ↦ gt ]

pub cmp_keys-lex : (a b : Key) → cmp_keys a b ≡ lex a b
unfolding cmp_keys compare_bytes
cmp_keys-lex [] [] = refl
cmp_keys-lex [] (y ∷ ys) = ground arith
cmp_keys-lex (x ∷ xs) [] = ground arith
cmp_keys-lex (x ∷ xs) (y ∷ ys) = ground (arith, cmp_keys-lex xs ys)

pub lex_refl : (a : Key) → lex a a ≡ eq
lex_refl [] = refl
lex_refl (x ∷ xs) = ground (arith, lex_refl xs)

pub lex-eq : (a b : Key) → lex a b ≡ eq → a ≡ b
lex-eq [] [] h = refl
lex-eq [] (y ∷ ys) h = cc
lex-eq (x ∷ xs) [] h = cc
lex-eq (x ∷ xs) (y ∷ ys) h = ground (arith, lex-eq xs ys)

abbrev pub flip : Ordering → Ordering
flip lt = gt
flip eq = eq
flip gt = lt

pub lex-flip : (a b : Key) → lex b a ≡ flip (lex a b)
lex-flip [] [] = refl
lex-flip [] (y ∷ ys) = refl
lex-flip (x ∷ xs) [] = refl
lex-flip (x ∷ xs) (y ∷ ys) = ground (arith, lex-flip xs ys)

pub lex_trans : (a b c : Key) → lex a b ≡ lt → lex b c ≡ lt → lex a c ≡ lt
lex_trans [] [] [] h k = cc
lex_trans [] (y ∷ ys) [] h k = cc
lex_trans [] b (z ∷ zs) h k = refl
lex_trans (x ∷ xs) [] c h k = cc
lex_trans (x ∷ xs) (y ∷ ys) [] h k = cc
lex_trans (x ∷ xs) (y ∷ ys) (z ∷ zs) h k = ground (arith, lex_trans xs ys zs)

pub lex-append : (p a b : Key) → lex (p ++ a) (p ++ b) ≡ lex a b
lex-append [] a b = refl
lex-append (x ∷ p) a b = ground (arith, lex-append p a b)

-- A key that stays below a prefix, as far as it goes, is below all that has the prefix.
pub lex-prefix_lt : (k p a : Key) → lex (take (length p) k) p ≡ lt → lex k (p ++ a) ≡ lt
lex-prefix_lt k [] a h = cc
lex-prefix_lt [] (y ∷ p) a h = refl
lex-prefix_lt (x ∷ k) (y ∷ p) a h = ground (arith, lex-prefix_lt k p a)

pub lex-prefix_gt : (k p a : Key) → lex (take (length p) k) p ≡ gt → lex k (p ++ a) ≡ gt
lex-prefix_gt k [] a h = cc
lex-prefix_gt [] (y ∷ p) a h = cc
lex-prefix_gt (x ∷ k) (y ∷ p) a h = ground (arith, lex-prefix_gt k p a)

pub lex-prefix_eq : (k p : Key) → lex (take (length p) k) p ≡ eq → k ≡ p ++ drop (length p) k
lex-prefix_eq k [] h = refl
lex-prefix_eq [] (y ∷ p) h = cc
lex-prefix_eq (x ∷ k) (y ∷ p) h = ground (arith, lex-prefix_eq k p)
