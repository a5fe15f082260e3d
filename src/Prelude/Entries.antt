-- ===== src/Prelude/Entries.antt =====
-- Selections of the rows of a table, and the keys in them.
use mathlib.Core.Path.{◌≡◌, refl}
use mathlib.Core.Bool.{Bool, true, false, ◌||◌}
use mathlib.Core.Logic.{inl, inr}
use mathlib.Core.List.{List, [], ◌∷◌, map}
use mathlib.Core.Option.{Option, none, some}
use native.Mathlib.Omega.{arith}
use Prim.Native.Nat.{ℕ, zero, suc}
use memstem.Prelude.Tests.{◌==◌, ==_iff, Bool-cases}
use memstem.Prelude.Lists.{All, filter, elem, take, drop}
use memstem.Prelude.Sorting.{insert_by, sort_by, IsSorted}
use memstem.Prelude.Table.{Table, lookup, Distinct}

module _ {ℓ} {V : Type ℓ} where
  abbrev pub keys : List (ℕ × V) → List ℕ
  keys = map (λ e. e.0)

  abbrev pub holds : (ℕ × V → Bool) → ℕ → Option V → Bool
  holds p k none = false
  holds p k (some v) = p (k, v)

  -- A key is among the selected rows exactly when its row is there and is selected.
  pub elem-keys-filter :
      (p : ℕ × V → Bool) (k : ℕ) (t : Table V)
      → Distinct t
      → elem k (keys (filter p t)) ≡ holds p k (lookup k t)
  unfolding elem filter lookup
  elem-keys-filter p k [] d = refl
  elem-keys-filter p k ((i, v) ∷ t) d = ground (arith, elem-keys-filter p k t d.1, ==_iff i k)

  pub elem-keys-insert_by :
      (le : ℕ × V → ℕ × V → Bool) (k : ℕ) (x : ℕ × V) (ys : List (ℕ × V))
      → elem k (keys (insert_by le x ys)) ≡ (x.0 == k || elem k (keys ys))
  unfolding elem insert_by
  elem-keys-insert_by le k x [] = refl
  elem-keys-insert_by le k x (y ∷ ys) = ground (arith, elem-keys-insert_by le k x ys)

  pub elem-keys-sort_by :
      (le : ℕ × V → ℕ × V → Bool) (k : ℕ) (xs : List (ℕ × V))
      → elem k (keys (sort_by le xs)) ≡ elem k (keys xs)
  unfolding elem sort_by
  elem-keys-sort_by le k [] = refl
  elem-keys-sort_by le k (x ∷ xs) =
      ground (arith, elem-keys-insert_by le k x (sort_by le xs), elem-keys-sort_by le k xs)

  pub elem-keys-take-drop :
      (n k : ℕ) (xs : List (ℕ × V))
      → elem k (keys xs) ≡ (elem k (keys (take n xs)) || elem k (keys (drop n xs)))
  unfolding elem
  elem-keys-take-drop zero k xs = refl
  elem-keys-take-drop (suc n) k [] = refl
  elem-keys-take-drop (suc n) k (x ∷ xs) = ground (arith, elem-keys-take-drop n k xs)

  pub find_key {κ} :
      (P : ℕ × V → Type κ) (k : ℕ) (xs : List (ℕ × V))
      → elem k (keys xs) ≡ true
      → All P xs
      → (v : V) × P (k, v)
  unfolding elem
  find_key P k [] h a = cc
  find_key P k ((i, v) ∷ xs) h a = elim (Bool-cases (i == k)) [
    | inl e ↦ (v, rw (← (==_iff i k).0 e) a.0)
    | inr e ↦ find_key P k xs (ground arith) a.1
  ]

  All-lookup-cons :
      (i : ℕ) (v : V) (t : Table V) (xs : List (ℕ × V))
      → lookup i t ≡ none
      → All (λ e. lookup e.0 t ≡ some e.1) xs
      → All (λ e. lookup e.0 ((i, v) ∷ t) ≡ some e.1) xs
  unfolding lookup
  All-lookup-cons i v t [] h a = tt
  All-lookup-cons i v t ((j, w) ∷ xs) h a =
      (ground (arith, ==_iff i j), All-lookup-cons i v t xs h a.1)

  -- In a table each row is the one that its key finds.
  pub All-lookup : (t : Table V) → Distinct t → All (λ e. lookup e.0 t ≡ some e.1) t
  unfolding lookup
  All-lookup [] d = tt
  All-lookup ((i, v) ∷ t) d = (ground arith, All-lookup-cons i v t t d.0 (All-lookup t d.1))

  lookup-insert_by :
      (le : ℕ × V → ℕ × V → Bool) (j : ℕ) (x : ℕ × V) (t : Table V)
      → lookup x.0 t ≡ none
      → lookup j (insert_by le x t) ≡ lookup j (x ∷ t)
  unfolding lookup insert_by
  lookup-insert_by le j x [] h = refl
  lookup-insert_by le j x ((i, v) ∷ t) h =
      ground (arith, lookup-insert_by le j x t, ==_iff i x.0, ==_iff i j, ==_iff x.0 j)

  insert_by-Distinct :
      (le : ℕ × V → ℕ × V → Bool) (x : ℕ × V) (t : Table V)
      → lookup x.0 t ≡ none
      → Distinct t
      → Distinct (insert_by le x t)
  unfolding lookup insert_by
  insert_by-Distinct le x [] h d = (refl, tt)
  insert_by-Distinct le x ((i, v) ∷ t) h d =
      ground (arith, insert_by-Distinct le x t, lookup-insert_by le i x t, ==_iff i x.0)

  -- A sort of the rows leaves a table with the same rows under the same keys.
  pub sort_by-lookup :
      (le : ℕ × V → ℕ × V → Bool) (t : Table V)
      → Distinct t
      → Distinct (sort_by le t) × ((j : ℕ) → lookup j (sort_by le t) ≡ lookup j t)
  unfolding lookup sort_by
  sort_by-lookup le [] d = (tt, λ j. refl)
  sort_by-lookup le ((i, v) ∷ t) d =
      let (distinct, same) = sort_by-lookup le t d.1 in
      let absent : lookup i (sort_by le t) ≡ none = rw same d.0 in
      (
        insert_by-Distinct le (i, v) (sort_by le t) absent distinct,
        λ j. ground (arith, lookup-insert_by le j (i, v) (sort_by le t) absent, same j),
      )

module _ {ℓ} {A : Type ℓ} where
  pub All-filter_of {κ} :
      (P : A → Type κ) (p : A → Bool) (xs : List A) → All P xs → All P (filter p xs)
  unfolding filter
  All-filter_of P p [] a = tt
  All-filter_of P p (x ∷ xs) a = elim (Bool-cases (p x)) [
    | inl e ↦ rw e (a.0, All-filter_of P p xs a.1)
    | inr e ↦ rw e (All-filter_of P p xs a.1)
  ]

  pub All-drop {κ} : (P : A → Type κ) (n : ℕ) (xs : List A) → All P xs → All P (drop n xs)
  All-drop P zero xs a = a
  All-drop P (suc n) [] a = a
  All-drop P (suc n) (x ∷ xs) a = All-drop P n xs a.1

  pub All-× {κ μ} :
      (P : A → Type κ) (Q : A → Type μ) (xs : List A)
      → All P xs
      → All Q xs
      → All (λ x. P x × Q x) xs
  All-× P Q [] a b = tt
  All-× P Q (x ∷ xs) a b = ((a.0, b.0), All-× P Q xs a.1 b.1)

  -- What a sorted list begins with comes before what follows.
  pub IsSorted-take-drop :
      (le : A → A → Bool) (n : ℕ) (xs : List A)
      → IsSorted le xs
      → All (λ a. All (λ b. le a b ≡ true) (drop n xs)) (take n xs)
  IsSorted-take-drop le zero xs s = tt
  IsSorted-take-drop le (suc n) [] s = tt
  IsSorted-take-drop le (suc n) (x ∷ xs) s =
      (All-drop (λ b. le x b ≡ true) n xs s.0, IsSorted-take-drop le n xs s.1)
