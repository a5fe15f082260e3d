-- ===== src/Prelude/Table.antt =====
-- A database table whose primary key is a number: its rows in order of insertion, each behind its
-- key, with the SQL statements that the program uses.
use mathlib.Core.Option
use mathlib.Core.Path.{◌≡◌, refl}
use mathlib.Core.Bool.{Bool, true, false}
use mathlib.Core.List.{List, [], ◌∷◌}
use mathlib.Core.Option.{Option, none, some}
use native.Mathlib.Omega.{arith}
use Prim.Native.Nat.{ℕ}
use memstem.Prelude.Tests.{◌==◌, if◌then◌else◌}

abbrev pub Table {ℓ} : Type ℓ → Type ℓ
Table V = List (ℕ × V)

module _ {ℓ} {V : Type ℓ} where
  -- SELECT … WHERE key = k
  unfoldable pub lookup : ℕ → Table V → Option V
  lookup k [] = none
  lookup k ((j, v) ∷ t) = if j == k then some v else lookup k t

  -- INSERT … ON CONFLICT(key) DO UPDATE: a new row, or `f` of the row that is there
  unfoldable pub upsert : ℕ → V → (V → V) → Table V → Table V
  upsert k new f [] = (k, new) ∷ []
  upsert k new f ((j, v) ∷ t) =
      let rest = upsert k new f t in if j == k then (j, f v) ∷ t else (j, v) ∷ rest

  -- DELETE … WHERE key = k
  unfoldable pub remove : ℕ → Table V → Table V
  remove k [] = []
  remove k ((j, v) ∷ t) = let rest = remove k t in if j == k then rest else (j, v) ∷ rest

  -- UPDATE … SET: each row by its key and what it holds
  unfoldable pub map_rows : (ℕ → V → V) → Table V → Table V
  map_rows f [] = []
  map_rows f ((j, v) ∷ t) = (j, f j v) ∷ map_rows f t

  -- UPDATE … SET … WHERE key = k
  unfoldable pub modify : ℕ → (V → V) → Table V → Table V
  unfolding map_rows
  modify k f = map_rows (λ j v. if j == k then f v else v)

  -- The primary key: no key stands on two rows.
  abbrev pub Distinct : Table V → Type ℓ
  Distinct [] = Unit
  Distinct ((j, v) ∷ t) = (lookup j t ≡ none) × Distinct t

  pub lookup-upsert :
      (k j : ℕ) (new : V) (f : V → V) (t : Table V)
      → lookup j (upsert k new f t)
        ≡ (if k == j then some (Option.get_or (Option.map f (lookup k t)) new) else lookup j t)
  unfolding lookup upsert
  lookup-upsert k j new f [] = ground arith
  lookup-upsert k j new f ((i, v) ∷ t) = ground (arith, lookup-upsert k j new f t)

  -- a row that is put in whatever is there
  pub lookup-put :
      (k j : ℕ) (v : V) (t : Table V)
      → lookup j (upsert k v (λ _. v) t) ≡ (if k == j then some v else lookup j t)
  unfolding lookup upsert
  lookup-put k j v [] = ground arith
  lookup-put k j v ((i, w) ∷ t) = ground (arith, lookup-put k j v t)

  pub lookup-remove :
      (k j : ℕ) (t : Table V) → lookup j (remove k t) ≡ (if k == j then none else lookup j t)
  unfolding lookup remove
  lookup-remove k j [] = ground arith
  lookup-remove k j ((i, v) ∷ t) = ground (arith, lookup-remove k j t)

  pub lookup-map_rows :
      (f : ℕ → V → V) (j : ℕ) (t : Table V)
      → lookup j (map_rows f t) ≡ Option.map (f j) (lookup j t)
  unfolding lookup map_rows
  lookup-map_rows f j [] = refl
  lookup-map_rows f j ((i, v) ∷ t) = ground (arith, lookup-map_rows f j t)

  pub lookup-modify :
      (k j : ℕ) (f : V → V) (t : Table V)
      → lookup j (modify k f t) ≡ (if k == j then Option.map f (lookup j t) else lookup j t)
  unfolding lookup modify
  lookup-modify k j f [] = ground arith
  lookup-modify k j f ((i, v) ∷ t) = ground (arith, lookup-modify k j f t)

  pub upsert-Distinct :
      (k : ℕ) (new : V) (f : V → V) (t : Table V) → Distinct t → Distinct (upsert k new f t)
  unfolding lookup upsert
  upsert-Distinct k new f [] d = (refl, tt)
  upsert-Distinct k new f ((i, v) ∷ t) d =
      ground (arith, upsert-Distinct k new f t d.1, lookup-upsert k i new f t)

  pub remove-Distinct : (k : ℕ) (t : Table V) → Distinct t → Distinct (remove k t)
  unfolding lookup remove
  remove-Distinct k [] d = tt
  remove-Distinct k ((i, v) ∷ t) d = ground (arith, remove-Distinct k t d.1, lookup-remove k i t)

  pub map_rows-Distinct : (f : ℕ → V → V) (t : Table V) → Distinct t → Distinct (map_rows f t)
  unfolding lookup map_rows
  map_rows-Distinct f [] d = tt
  map_rows-Distinct f ((i, v) ∷ t) d =
      ground (arith, map_rows-Distinct f t d.1, lookup-map_rows f i t)

  pub modify-Distinct : (k : ℕ) (f : V → V) (t : Table V) → Distinct t → Distinct (modify k f t)
  unfolding modify
  modify-Distinct k f t d = map_rows-Distinct (λ j v. if j == k then f v else v) t d

-- Whatever is found satisfies the predicate.
abbrev pub Each {ℓ κ} : {V : Type ℓ} → (V → Type κ) → Option V → Type κ
Each P none = Unit
Each P (some v) = P v

module _ {ℓ κ} {V : Type ℓ} (P : V → Type κ) where
  Each-map :
      (f : V → V) (o : Option V) → ((v : V) → P v → P (f v)) → Each P o → Each P (Option.map f o)
  Each-map f none keep h = tt
  Each-map f (some v) keep h = keep v h

  Each-if : (b : Bool) (o o' : Option V) → Each P o → Each P o' → Each P (if b then o else o')
  Each-if true o o' h h' = h
  Each-if false o o' h h' = h'

  Each-upsert_row :
      (new : V) (f : V → V) (o : Option V)
      → P new
      → ((v : V) → P v → P (f v))
      → Each P o
      → P (Option.get_or (Option.map f o) new)
  Each-upsert_row new f none start keep h = start
  Each-upsert_row new f (some v) start keep h = keep v h

  pub map_rows-Each :
      (f : ℕ → V → V) (t : Table V)
      → ((k : ℕ) (v : V) → P v → P (f k v))
      → ((k : ℕ) → Each P (lookup k t))
      → (k : ℕ) → Each P (lookup k (map_rows f t))
  map_rows-Each f t keep h k = rw lookup-map_rows (Each-map (f k) (lookup k t) (keep k) (h k))

  pub remove-Each :
      (j : ℕ) (t : Table V)
      → ((k : ℕ) → Each P (lookup k t))
      → (k : ℕ) → Each P (lookup k (remove j t))
  remove-Each j t h k = rw lookup-remove (Each-if (j == k) none (lookup k t) tt (h k))

  pub upsert-Each :
      (j : ℕ) (new : V) (f : V → V) (t : Table V)
      → P new
      → ((v : V) → P v → P (f v))
      → ((k : ℕ) → Each P (lookup k t))
      → (k : ℕ) → Each P (lookup k (upsert j new f t))
  upsert-Each j new f t start keep h k = rw lookup-upsert (
      Each-if (j == k) (some (Option.get_or (Option.map f (lookup j t)) new)) (lookup k t)
        (Each-upsert_row new f (lookup j t) start keep (h j)) (h k))

pub ruleset table_laws = (lookup-upsert, lookup-remove, lookup-map_rows, lookup-modify)
