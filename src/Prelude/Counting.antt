-- ===== src/Prelude/Counting.antt =====
-- How many rows of a table have a key in a given list.
use mathlib.Core.Path.{◌≡◌, refl, ap}
use mathlib.Core.Bool.{Bool, true, false, ◌&&◌}
use mathlib.Core.List.{List, [], ◌∷◌}
use mathlib.Core.Option.{none}
use native.Mathlib.Omega.{arith}
use Prim.Native.Nat.{ℕ, zero, suc}
use memstem.Prelude.Tests.{==_iff}
use memstem.Prelude.Lists.{filter, elem, take, length}
use memstem.Prelude.Sorting.{insert_by, sort_by}
use memstem.Prelude.Table.{Table, lookup, Distinct}
use memstem.Prelude.Entries.{keys, holds, elem-keys-filter, elem-keys-insert_by, elem-keys-sort_by}

-- No number stands twice.
abbrev pub NoRepeat : List ℕ → Type 0
NoRepeat [] = Unit
NoRepeat (x ∷ xs) = (elem x xs ≡ false) × NoRepeat xs

elem-take : (n k : ℕ) (xs : List ℕ) → elem k xs ≡ false → elem k (take n xs) ≡ false
unfolding elem
elem-take zero k xs h = refl
elem-take (suc n) k [] h = refl
elem-take (suc n) k (x ∷ xs) h = ground (arith, elem-take n k xs)

pub NoRepeat-take : (n : ℕ) (xs : List ℕ) → NoRepeat xs → NoRepeat (take n xs)
NoRepeat-take zero xs h = tt
NoRepeat-take (suc n) [] h = tt
NoRepeat-take (suc n) (x ∷ xs) h = (elem-take n x xs h.0, NoRepeat-take n xs h.1)

module _ {ℓ} {V : Type ℓ} where
  filter-NoRepeat : (p : ℕ × V → Bool) (t : Table V) → Distinct t → NoRepeat (keys (filter p t))
  unfolding filter
  filter-NoRepeat p [] d = tt
  filter-NoRepeat p ((i, v) ∷ t) d =
      ground (arith, filter-NoRepeat p t d.1, elem-keys-filter p i t d.1)

  elem-keys_absent : (k : ℕ) (t : Table V) → lookup k t ≡ none → elem k (keys t) ≡ false
  unfolding lookup elem
  elem-keys_absent k [] h = refl
  elem-keys_absent k ((i, v) ∷ t) h = ground (arith, elem-keys_absent k t)

  -- the primary keys of a table
  pub Distinct-NoRepeat : (t : Table V) → Distinct t → NoRepeat (keys t)
  Distinct-NoRepeat [] d = tt
  Distinct-NoRepeat ((i, v) ∷ t) d = (elem-keys_absent i t d.0, Distinct-NoRepeat t d.1)

  insert_by-NoRepeat :
      (le : ℕ × V → ℕ × V → Bool) (x : ℕ × V) (ys : List (ℕ × V))
      → elem x.0 (keys ys) ≡ false
      → NoRepeat (keys ys)
      → NoRepeat (keys (insert_by le x ys))
  unfolding elem insert_by
  insert_by-NoRepeat le x [] h n = (refl, tt)
  insert_by-NoRepeat le x (y ∷ ys) h n = ground (
    arith,
    insert_by-NoRepeat le x ys (ground arith) n.1,
    elem-keys-insert_by le y.0 x ys,
    ==_iff x.0 y.0,
  )

  sort_by-NoRepeat :
      (le : ℕ × V → ℕ × V → Bool) (xs : List (ℕ × V))
      → NoRepeat (keys xs)
      → NoRepeat (keys (sort_by le xs))
  unfolding sort_by
  sort_by-NoRepeat le [] n = tt
  sort_by-NoRepeat le (x ∷ xs) n =
      insert_by-NoRepeat le x (sort_by le xs) (ground (arith, elem-keys-sort_by le x.0 xs))
        (sort_by-NoRepeat le xs n.1)

  elem-keys-take :
      (n k : ℕ) (xs : List (ℕ × V)) → elem k (keys xs) ≡ false → elem k (keys (take n xs)) ≡ false
  unfolding elem
  elem-keys-take zero k xs h = refl
  elem-keys-take (suc n) k [] h = refl
  elem-keys-take (suc n) k (x ∷ xs) h = ground (arith, elem-keys-take n k xs)

  take-NoRepeat : (n : ℕ) (xs : List (ℕ × V)) → NoRepeat (keys xs) → NoRepeat (keys (take n xs))
  take-NoRepeat zero xs h = tt
  take-NoRepeat (suc n) [] h = tt
  take-NoRepeat (suc n) (x ∷ xs) h = (elem-keys-take n x.0 xs h.0, take-NoRepeat n xs h.1)

  pub selection-NoRepeat :
      (le : ℕ × V → ℕ × V → Bool) (p : ℕ × V → Bool) (n : ℕ) (t : Table V)
      → Distinct t
      → NoRepeat (keys (take n (sort_by le (filter p t))))
  selection-NoRepeat le p n t d =
      take-NoRepeat n (sort_by le (filter p t))
        (sort_by-NoRepeat le (filter p t) (filter-NoRepeat p t d))

  -- the rows that `p` selects and whose key is in the list
  abbrev pub among : (ℕ × V → Bool) → List ℕ → ℕ × V → Bool
  among p ks e = p e && elem e.0 ks

  count_none : (p : ℕ × V → Bool) (t : Table V) → length (filter (among p []) t) ≡ 0
  unfolding filter elem
  count_none p [] = refl
  count_none p (e ∷ t) = ground (arith, count_none p t)

  count_absent :
      (p : ℕ × V → Bool) (k : ℕ) (ks : List ℕ) (t : Table V)
      → lookup k t ≡ none
      → length (filter (among p (k ∷ ks)) t) ≡ length (filter (among p ks) t)
  unfolding filter elem lookup
  count_absent p k ks [] h = refl
  count_absent p k ks ((i, v) ∷ t) h = ground (arith, count_absent p k ks t, ==_iff i k)

  count_present :
      (p : ℕ × V → Bool) (k : ℕ) (ks : List ℕ) (t : Table V)
      → Distinct t
      → elem k ks ≡ false
      → holds p k (lookup k t) ≡ true
      → length (filter (among p (k ∷ ks)) t) ≡ suc (length (filter (among p ks) t))
  unfolding filter elem lookup
  count_present p k ks [] d n h = cc
  count_present p k ks ((i, v) ∷ t) d n h =
      ground (arith, count_present p k ks t d.1, count_absent p k ks t, ==_iff i k)

  -- Keys of selected rows, with no repetition, find as many rows as there are keys.
  pub length-filter-among :
      (p : ℕ × V → Bool) (ks : List ℕ) (t : Table V)
      → Distinct t
      → NoRepeat ks
      → ((k : ℕ) → elem k ks ≡ true → holds p k (lookup k t) ≡ true)
      → length (filter (among p ks) t) ≡ length ks
  length-filter-among p [] t d n h = count_none p t
  length-filter-among p (k ∷ ks) t d n h =
      rw (count_present p k ks t d n.0 (h k (unfold elem in ground (arith, ==_iff k k))))
        (ap suc (length-filter-among p ks t d n.1 (λ j e. h j (unfold elem in ground arith))))
