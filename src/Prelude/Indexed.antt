-- ===== src/Prelude/Indexed.antt =====
-- The idiom of a slice with a map from a key to the index of its item:
--
--   if idx, ok := byKey[k]; ok { xs[idx] = f(xs[idx]) }
--   else { byKey[k] = len(xs); xs = append(xs, x) }
use Prim.Native.Nat.{ℕ, zero, suc}
use mathlib.Core.Path.{◌≡◌, refl, ap, ◌∙◌, subst}
use mathlib.Core.Bool.{Bool, true, false, ◌||◌, ◌&&◌}
use mathlib.Core.Logic.{inl, inr}
use mathlib.Core.List.{List, [], ◌∷◌, ◌++◌, map, map-append}
use mathlib.Core.Option.{Option, none, some}
use native.Mathlib.Omega.{arith}
use bcpfs.Prelude.Tests.{if◌then◌else◌, Option-cases, Bool-cases}
use bcpfs.Prelude.Lists.{length, get_elem?, modify, any, any-append}
use bcpfs.Prelude.Bytes.{Bytes, beq, beq_iff}
use bcpfs.Prelude.Dict
use bcpfs.Prelude.Dict.{Dict, get-put}

pub record Indexed {ℓ} (A : Type ℓ) : Type ℓ where
  pub items : List A
  pub index : Dict ℕ

module _ {ℓ} {A : Type ℓ} where
  abbrev pub empty : Indexed A
  empty = record { items = []; index = [] }

  at_index : Option ℕ → Bytes → (A → A) → A → Indexed A → Indexed A
  at_index (some i) k f x s = record s { items = modify i f s.items }
  at_index none k f x s = record {
    items = s.items ++ x ∷ [];
    index = Dict.put s.index k (length s.items);
  }

  unfoldable pub upsert : Bytes → (A → A) → A → Indexed A → Indexed A
  unfolding at_index
  upsert k f x s = at_index (Dict.get s.index k) k f x s

-- Every index leads to an item with its key, and a key without an index has no item.
pub record IsIndexed {ℓ} {A : Type ℓ} (key : A → Bytes) (s : Indexed A) : Type ℓ where
  pub present :
      (k : Bytes) (i : ℕ)
      → Dict.get s.index k ≡ some i
      → (x : A) × (get_elem? s.items i ≡ some x) × (key x ≡ k)
  pub absent : (k : Bytes) → Dict.get s.index k ≡ none → any (λ x. beq (key x) k) s.items ≡ false

module _ {ℓ} {A : Type ℓ} (key : A → Bytes) where
  get_elem?-append :
      (xs : List A) (y x : A) (i : ℕ)
      → get_elem? xs i ≡ some x
      → get_elem? (xs ++ y ∷ []) i ≡ some x
  get_elem?-append [] y x i h = cc
  get_elem?-append (z ∷ xs) y x zero h = h
  get_elem?-append (z ∷ xs) y x (suc i) h = get_elem?-append xs y x i h

  get_elem?-last : (xs : List A) (y : A) → get_elem? (xs ++ y ∷ []) (length xs) ≡ some y
  get_elem?-last [] y = refl
  get_elem?-last (z ∷ xs) y = get_elem?-last xs y

  get_elem?-modify :
      (xs : List A) (f : A → A) (x : A) (i j : ℕ)
      → ((a : A) → key (f a) ≡ key a)
      → get_elem? xs j ≡ some x
      → (y : A) × (get_elem? (modify i f xs) j ≡ some y) × (key y ≡ key x)
  get_elem?-modify [] f x i j keep h = cc
  get_elem?-modify (z ∷ xs) f x zero zero keep h = (f z, refl, cc (keep z))
  get_elem?-modify (z ∷ xs) f x (suc i) zero keep h = (z, refl, cc)
  get_elem?-modify (z ∷ xs) f x zero (suc j) keep h = (x, h, refl)
  get_elem?-modify (z ∷ xs) f x (suc i) (suc j) keep h = get_elem?-modify xs f x i j keep h

  map-modify :
      (i : ℕ) (f : A → A) (xs : List A)
      → ((a : A) → key (f a) ≡ key a)
      → map key (modify i f xs) ≡ map key xs
  map-modify i f [] keep = refl
  map-modify zero f (x ∷ xs) keep = ap (λ k. k ∷ map key xs) (keep x)
  map-modify (suc i) f (x ∷ xs) keep = ap (λ l. key x ∷ l) (map-modify i f xs keep)

  any-modify_key :
      (i : ℕ) (f : A → A) (k : Bytes) (xs : List A)
      → ((a : A) → key (f a) ≡ key a)
      → any (λ x. beq (key x) k) (modify i f xs) ≡ any (λ x. beq (key x) k) xs
  any-modify_key i f k [] keep = refl
  any-modify_key zero f k (x ∷ xs) keep = ap (λ j. beq j k || any (λ y. beq (key y) k) xs) (keep x)
  any-modify_key (suc i) f k (x ∷ xs) keep =
      ap (λ b. beq (key x) k || b) (any-modify_key i f k xs keep)

  any_present :
      (k : Bytes) (i : ℕ) (a : A) (xs : List A)
      → get_elem? xs i ≡ some a
      → key a ≡ k
      → any (λ b. beq (key b) k) xs ≡ true
  any_present k i a [] at e = cc
  any_present k zero a (z ∷ xs) at e = ground (arith, beq_iff (key z) k)
  any_present k (suc i) a (z ∷ xs) at e = ground (arith, any_present k i a xs at e)

  pub empty-IsIndexed : IsIndexed key empty
  unfolding Dict.get
  empty-IsIndexed = record { present = λ k i h. cc; absent = λ k h. refl }

  module _ (k : Bytes) (x : A) {s : Indexed A} (inv : IsIndexed key s) (own : key x ≡ k) where
    present-new :
        (j : Bytes) (i : ℕ)
        → Dict.get (Dict.put s.index k (length s.items)) j ≡ some i
        → (y : A) × (get_elem? (s.items ++ x ∷ []) i ≡ some y) × (key y ≡ j)
    present-new j i h = elim (Bool-cases (beq k j)) [
      | inl same ↦
          let e : length s.items ≡ i = ground (arith, get-put s.index k (length s.items) j) in
          (
            x,
            subst (λ n. get_elem? (s.items ++ x ∷ []) n ≡ some x) e (get_elem?-last s.items x),
            own ∙ (beq_iff k j).0 same,
          )
      | inr other ↦
          let old : Dict.get s.index j ≡ some i =
            ground (arith, get-put s.index k (length s.items) j) in
          let (y, at, e) = inv.present j i old in (y, get_elem?-append s.items x y i at, e)
    ]

    -- A new item may take over the index of its key.
    pub append-IsIndexed :
        IsIndexed key
          (record { items = s.items ++ x ∷ []; index = Dict.put s.index k (length s.items) })
    append-IsIndexed = record {
      present = present-new;
      absent = λ j h. ground (
        arith,
        any-append (λ y. beq (key y) j) s.items (x ∷ []),
        get-put s.index k (length s.items) j,
        inv.absent j,
        own,
      );
    }

  module _ (k : Bytes) (f : A → A) (x : A) {s : Indexed A} (inv : IsIndexed key s)
      (keep : (a : A) → key (f a) ≡ key a) (own : key x ≡ k) where
    upsert-at :
        {i : ℕ}
        → Dict.get s.index k ≡ some i
        → upsert k f x s ≡ record s { items = modify i f s.items }
    unfolding upsert
    upsert-at h = rw h

    upsert-new :
        Dict.get s.index k ≡ none
        → upsert k f x s
          ≡ record { items = s.items ++ x ∷ []; index = Dict.put s.index k (length s.items) }
    unfolding upsert
    upsert-new h = rw h

    -- The index stays sound and complete.
    pub upsert-IsIndexed : IsIndexed key (upsert k f x s)
    upsert-IsIndexed = elim (Option-cases (Dict.get s.index k)) [
      | inl new ↦ rw (upsert-new new) (append-IsIndexed k x inv own)
      | inr (i, old) ↦ rw (upsert-at old) (record {
        present = λ j n h.
            let (y, at, e) = inv.present j n h in
            let (z, at', e') = get_elem?-modify s.items f y i n keep at in (z, at', e' ∙ e);
        absent = λ j h. any-modify_key i f j s.items keep ∙ inv.absent j h;
      })
    ]

  -- A test of the items with key `g` that `f` and the new item raise by `r`.
  module _ (q : A → Bool) (r : Bool) (g : Bytes) where
    any-modify :
        (i : ℕ) (f : A → A) (k : Bytes) (a : A) (xs : List A)
        → ((b : A) → key (f b) ≡ key b)
        → ((b : A) → q (f b) ≡ (q b || r))
        → get_elem? xs i ≡ some a
        → key a ≡ k
        → any (λ b. beq (key b) g && q b) (modify i f xs)
          ≡ (any (λ b. beq (key b) g && q b) xs || (beq k g && r))
    any-modify i f k a [] keep raise at e = cc
    any-modify zero f k a (z ∷ xs) keep raise at e =
        let same : key z ≡ k = (let ez : z ≡ a = cc in ap key ez ∙ e) in
        rw (keep z, raise z, same) (ground arith)
    any-modify (suc i) f k a (z ∷ xs) keep raise at e =
        ground (arith, any-modify i f k a xs keep raise at e)

    pub any-upsert :
        (k : Bytes) (f : A → A) (x : A) {s : Indexed A}
        → IsIndexed key s
        → ((b : A) → key (f b) ≡ key b)
        → key x ≡ k
        → ((b : A) → q (f b) ≡ (q b || r))
        → q x ≡ r
        → any (λ b. beq (key b) g && q b) (upsert k f x s).items
          ≡ (any (λ b. beq (key b) g && q b) s.items || (beq k g && r))
    any-upsert k f x {s} inv keep own raise exact = elim (Option-cases (Dict.get s.index k)) [
      | inl new ↦
          rw (upsert-new k f x inv keep own new)
            (ground (arith, any-append (λ b. beq (key b) g && q b) s.items (x ∷ [])))
      | inr (i, old) ↦
          rw (upsert-at k f x inv keep own old)
            (let (a, at, e) = inv.present k i old in any-modify i f k a s.items keep raise at e)
    ]

  -- The keys keep their order: a new key comes last.
  pub keys-upsert :
      (k : Bytes) (f : A → A) (x : A) {s : Indexed A}
      → IsIndexed key s
      → ((b : A) → key (f b) ≡ key b)
      → key x ≡ k
      → map key (upsert k f x s).items
        ≡ (if any (λ b. beq (key b) k) s.items then map key s.items else map key s.items ++ k ∷ [])
  keys-upsert k f x {s} inv keep own = elim (Option-cases (Dict.get s.index k)) [
    | inl new ↦
        rw (upsert-new k f x inv keep own new, inv.absent k new)
          (rw own at (map-append key s.items (x ∷ [])))
    | inr (i, old) ↦ rw (upsert-at k f x inv keep own old) (
        let (a, at, e) = inv.present k i old in
        rw (any_present k i a s.items at e) (map-modify i f s.items keep))
  ]
