-- ===== src/Apply/ShareTrees/Order.antt =====
-- cmd/bcpfs-perms/bcpsharingapply/share-trees.go: the order in which files are removed.
use mathlib.Core.List.{reverse, reverse-cons}
use bcpfs.Prelude.{
  ◌≡◌, refl, ◌∙◌, List, [], ◌∷◌, ◌++◌, Bool, true, false, any, any-append, All, All-append,
  Bool-cases, inl, inr, arith,
}
use bcpfs.Prelude.Bytes.{Bytes, bytes_ltb, has_prefix}
use bcpfs.Prelude.Sort.{insert_by, sort_by, any-sort_by}
use bcpfs.Apply.ShareTrees.{removal_order}

bytes_ltb_asymm : (s t : Bytes) → bytes_ltb s t ≡ true → bytes_ltb t s ≡ false
unfolding bytes_ltb
bytes_ltb_asymm s [] h = ground arith
bytes_ltb_asymm [] (b ∷ t) h = refl
bytes_ltb_asymm (a ∷ s) (b ∷ t) h = ground (arith, bytes_ltb_asymm s t)

-- `z ≥ y` and `y ≥ x` give `z ≥ x`.
bytes_ltb_trans :
    (x y z : Bytes) → bytes_ltb z y ≡ false → bytes_ltb y x ≡ false → bytes_ltb z x ≡ false
unfolding bytes_ltb
bytes_ltb_trans [] y z h k = refl
bytes_ltb_trans (a ∷ x) [] z h k = absurd (cc k)
bytes_ltb_trans (a ∷ x) (b ∷ y) [] h k = absurd (cc h)
bytes_ltb_trans (a ∷ x) (b ∷ y) (c ∷ z) h k = ground (arith, bytes_ltb_trans x y z)

-- What lies below a directory is greater.
bytes_ltb-has_prefix :
    (dir path : Bytes) → has_prefix path (dir ++ b'/' ∷ []) ≡ true → bytes_ltb dir path ≡ true
unfolding bytes_ltb has_prefix
bytes_ltb-has_prefix [] [] h = absurd (cc h)
bytes_ltb-has_prefix [] (c ∷ path) h = refl
bytes_ltb-has_prefix (a ∷ dir) [] h = absurd (cc h)
bytes_ltb-has_prefix (a ∷ dir) (c ∷ path) h = ground (arith, bytes_ltb-has_prefix dir path)

-- No later text is less.
abbrev IsSorted : List Bytes → Type 0
IsSorted [] = Unit
IsSorted (x ∷ xs) = All (λ y. bytes_ltb y x ≡ false) xs × IsSorted xs

insert-All :
    (P : Bytes → Type 0) (x : Bytes) (ys : List Bytes)
    → P x
    → All P ys
    → All P (insert_by (λ p. p) x ys)
unfolding insert_by
insert-All P x [] px h = (px, tt)
insert-All P x (y ∷ ys) px (hy, h) = elim (Bool-cases (bytes_ltb y x)) [
  | inl less ↦ rw less (hy, insert-All P x ys px h)
  | inr geq ↦ rw geq (px, (hy, h))
]

All-geq :
    (x y : Bytes) (ys : List Bytes)
    → bytes_ltb y x ≡ false
    → All (λ z. bytes_ltb z y ≡ false) ys
    → All (λ z. bytes_ltb z x ≡ false) ys
All-geq x y [] h hs = tt
All-geq x y (z ∷ ys) h (hz, hs) = (bytes_ltb_trans x y z hz h, All-geq x y ys h hs)

insert-IsSorted : (x : Bytes) (ys : List Bytes) → IsSorted ys → IsSorted (insert_by (λ p. p) x ys)
unfolding insert_by
insert-IsSorted x [] h = (tt, tt)
insert-IsSorted x (y ∷ ys) (hy, h) = elim (Bool-cases (bytes_ltb y x)) [
  | inl less ↦ rw less (
    insert-All (λ z. bytes_ltb z y ≡ false) x ys (bytes_ltb_asymm y x less) hy,
    insert-IsSorted x ys h,
  )
  | inr geq ↦ rw geq ((geq, All-geq x y ys geq hy), (hy, h))
]

sort-IsSorted : (xs : List Bytes) → IsSorted (sort_by (λ p. p) xs)
unfolding sort_by
sort-IsSorted [] = tt
sort-IsSorted (x ∷ xs) = insert-IsSorted x (sort_by (λ p. p) xs) (sort-IsSorted xs)

-- No later path lies below an earlier one.
abbrev pub ChildrenFirst : List Bytes → Type 0
ChildrenFirst [] = Unit
ChildrenFirst (x ∷ xs) = All (λ y. has_prefix y (x ++ b'/' ∷ []) ≡ false) xs × ChildrenFirst xs

last-ChildrenFirst :
    (xs : List Bytes) (x : Bytes)
    → ChildrenFirst xs
    → All (λ y. bytes_ltb y x ≡ false) xs
    → ChildrenFirst (xs ++ x ∷ [])
last-ChildrenFirst [] x h g = (tt, tt)
last-ChildrenFirst (y ∷ xs) x (hy, h) (gy, g) = (
  All-append _ xs (x ∷ []) hy (
    elim (Bool-cases (has_prefix x (y ++ b'/' ∷ []))) [
      | inl on ↦ absurd (cc (bytes_ltb-has_prefix y x on))
      | inr off ↦ off
    ],
    tt,
  ),
  last-ChildrenFirst xs x h g,
)

All-reverse : (P : Bytes → Type 0) (xs : List Bytes) → All P xs → All P (reverse xs)
All-reverse P [] h = tt
All-reverse P (x ∷ xs) (px, h) =
    rw (reverse-cons x xs) (All-append P (reverse xs) (x ∷ []) (All-reverse P xs h) (px, tt))

any-reverse : (p : Bytes → Bool) (xs : List Bytes) → any p (reverse xs) ≡ any p xs
any-reverse p [] = refl
any-reverse p (x ∷ xs) =
    rw (reverse-cons x xs, any-append p (reverse xs) (x ∷ []), any-reverse p xs) (ground arith)

reverse-ChildrenFirst : (xs : List Bytes) → IsSorted xs → ChildrenFirst (reverse xs)
reverse-ChildrenFirst [] h = tt
reverse-ChildrenFirst (x ∷ xs) (hx, h) = rw (reverse-cons x xs) (
    last-ChildrenFirst (reverse xs) x (reverse-ChildrenFirst xs h)
      (All-reverse (λ y. bytes_ltb y x ≡ false) xs hx))

-- The paths to be removed stay the same, and what lies below a directory is removed before it.
pub removal_order-ChildrenFirst :
    (rm : List Bytes)
    → ChildrenFirst (removal_order rm) × ((p : Bytes → Bool) → any p (removal_order rm) ≡ any p rm)
unfolding removal_order
removal_order-ChildrenFirst rm = (
  reverse-ChildrenFirst (sort_by (λ p. p) rm) (sort-IsSorted rm),
  λ p. any-reverse p (sort_by (λ p'. p') rm) ∙ any-sort_by p (λ p'. p') rm,
)
