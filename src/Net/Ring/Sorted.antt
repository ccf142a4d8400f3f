-- ===== src/Net/Ring/Sorted.antt =====
-- The sorted ring: in order, and with the points that were put in.
use recreation_test.Base.{
  ℕ, zero, suc, ◌≤◌, ◌≡◌, refl, leb, List, [], ◌∷◌, length, get_elem?, some, arith, All, Bool-cases,
  inl, inr,
}
use mathlib.Core.Path.{subst}
use recreation_test.Net.Ring.{insert_sorted, sort}

-- Each point is at most all later ones.
abbrev pub IsSorted : List ℕ → Type 0
IsSorted [] = Unit {0}
IsSorted (x ∷ xs) = All (λ y. x ≤ y) xs × IsSorted xs

All-insert_sorted {κ} :
    (P : ℕ → Type κ) (x : ℕ) (ys : List ℕ) → P x → All P ys → All P (insert_sorted x ys)
unfolding insert_sorted
All-insert_sorted P x [] px h = (px, tt)
All-insert_sorted P x (y ∷ ys) px (py, h) = elim (Bool-cases (leb x y)) [
  | inl e ↦ rw e (px, (py, h))
  | inr e ↦ rw e (py, All-insert_sorted P x ys px h)
]

pub All-sort {κ} : (P : ℕ → Type κ) (xs : List ℕ) → All P xs → All P (sort xs)
unfolding sort
All-sort P [] h = tt
All-sort P (x ∷ xs) (px, h) = All-insert_sorted P x (sort xs) px (All-sort P xs h)

All-le : (x y : ℕ) (ys : List ℕ) → x ≤ y → All (λ z. y ≤ z) ys → All (λ z. x ≤ z) ys
All-le x y [] h a = tt
All-le x y (z ∷ zs) h (p, a) = (omega arith, All-le x y zs h a)

insert_sorted-IsSorted : (x : ℕ) (ys : List ℕ) → IsSorted ys → IsSorted (insert_sorted x ys)
unfolding insert_sorted
insert_sorted-IsSorted x [] s = (tt, tt)
insert_sorted-IsSorted x (y ∷ ys) (a, s) = elim (Bool-cases (leb x y)) [
  | inl e ↦ rw e ((ground arith, All-le x y ys (ground arith) a), (a, s))
  | inr e ↦
      rw e (All-insert_sorted (λ z. y ≤ z) x ys (ground arith) a, insert_sorted-IsSorted x ys s)
]

pub sort-IsSorted : (xs : List ℕ) → IsSorted (sort xs)
unfolding sort
sort-IsSorted [] = tt
sort-IsSorted (x ∷ xs) = insert_sorted-IsSorted x (sort xs) (sort-IsSorted xs)

length-insert_sorted : (x : ℕ) (ys : List ℕ) → length (insert_sorted x ys) ≡ suc (length ys)
unfolding insert_sorted
length-insert_sorted x [] = refl
length-insert_sorted x (y ∷ ys) = ground (arith, length-insert_sorted x ys)

pub length-sort : (xs : List ℕ) → length (sort xs) ≡ length xs
unfolding sort
length-sort [] = refl
length-sort (x ∷ xs) = omega (arith, length-insert_sorted x (sort xs), length-sort xs)

pub All-get_elem? {κ} :
    (P : ℕ → Type κ) (xs : List ℕ) (i p : ℕ) → All P xs → get_elem? xs i ≡ some p → P p
All-get_elem? P [] i p h e = absurd (cc)
All-get_elem? P (x ∷ xs) zero p h e = let same : x ≡ p = ground arith in subst P same h.0
All-get_elem? P (x ∷ xs) (suc i) p h e = All-get_elem? P xs i p h.1 e

-- On a sorted list positions and points have the same order.
pub IsSorted-get_elem? :
    (xs : List ℕ) (i j p q : ℕ)
    → IsSorted xs
    → i ≤ j
    → get_elem? xs i ≡ some p
    → get_elem? xs j ≡ some q
    → p ≤ q
IsSorted-get_elem? [] i j p q s h e f = absurd (cc)
IsSorted-get_elem? (x ∷ xs) zero zero p q s h e f = ground arith
IsSorted-get_elem? (x ∷ xs) zero (suc j) p q s h e f =
    ground (arith, All-get_elem? (λ y. x ≤ y) xs j q s.0 f)
IsSorted-get_elem? (x ∷ xs) (suc i) zero p q s h e f = absurd (omega arith)
IsSorted-get_elem? (x ∷ xs) (suc i) (suc j) p q s h e f =
    IsSorted-get_elem? xs i j p q s.1 (omega arith) e f
