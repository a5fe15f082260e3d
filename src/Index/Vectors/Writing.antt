-- ===== src/Index/Vectors/Writing.antt =====
-- What a write leaves in the rows of a memory, index by index, and when its checks pass.
use memstem.Prelude.{
  ℕ, zero, suc, ◌+◌, ◌≤◌, ◌<◌, ◌≡◌, refl, ◌∙◌, ap, true, not, ◌&&◌, ◌||◌, Option, none, some, List,
  [], ◌∷◌, arith, elem, get_elem?, ◌==◌, ==_iff, ltb, leb, is_some, if◌then◌else◌, All, length,
  filter, map,
}
use memstem.Prelude.Table.{Table, lookup, Distinct, upsert, lookup-upsert}
use memstem.Index.Result.{ok}
use memstem.Index.Store.{Vector}
use memstem.Index.Vectors.{
  all_present, all_sized, check_unchanged, put_vector, write_from, number_from, is_below, merge,
}
use memstem.Index.Vectors.Planning.{Kept}

pub lookup-put_vector :
    (i k : ℕ) (o : Option Vector) (rows : Table Vector)
    → lookup k (put_vector i o rows) ≡ (if i == k && is_some o then o else lookup k rows)
lookup-put_vector i k none rows = ground arith
lookup-put_vector i k (some v) rows = ground (arith, lookup-upsert i k v (λ _. v) rows)

pub lookup-write_from :
    (unchanged : List ℕ) (vectors : Table Vector) (i k : ℕ) (hs : List ℕ) (rows : Table Vector)
    → lookup k (write_from unchanged vectors i hs rows) ≡ (
        if leb i k && ltb k (i + length hs) && not (elem k unchanged) && is_some (lookup k vectors)
        then lookup k vectors
        else lookup k rows)
unfolding write_from
lookup-write_from unchanged vectors i k [] rows = ground arith
lookup-write_from unchanged vectors i k (h ∷ hs) rows = ground (
  arith,
  lookup-write_from unchanged vectors (suc i) k hs
      (if elem i unchanged then rows else put_vector i (lookup i vectors) rows),
  lookup-put_vector i k (lookup i vectors) rows,
  ==_iff i k,
)

pub lookup-filter_below :
    (n k : ℕ) (rows : Table Vector)
    → lookup k (filter (is_below n) rows) ≡ (if ltb k n then lookup k rows else none)
unfolding filter lookup
lookup-filter_below n k [] = ground arith
lookup-filter_below n k ((j, v) ∷ rows) = ground (arith, lookup-filter_below n k rows, ==_iff j k)

pub lookup-number_from :
    (i k : ℕ) (hs : List ℕ) → lookup (i + k) (number_from i hs) ≡ get_elem? hs k
unfolding lookup number_from
lookup-number_from i k [] = refl
lookup-number_from i zero (h ∷ hs) = ground arith
lookup-number_from i (suc k) (h ∷ hs) =
    let shift : i + suc k ≡ suc i + k = omega arith in
    ground (
      arith,
      ap (λ (j : ℕ). lookup j (number_from (suc i) hs)) shift,
      lookup-number_from (suc i) k hs,
    )

pub lookup-number : (k : ℕ) (hs : List ℕ) → lookup k (number_from 0 hs) ≡ get_elem? hs k
lookup-number k hs =
    let shift : k ≡ 0 + k = omega arith in
    ap (λ (j : ℕ). lookup j (number_from 0 hs)) shift ∙ lookup-number_from 0 k hs

number_from-low : (i k : ℕ) (hs : List ℕ) → k < i → lookup k (number_from i hs) ≡ none
unfolding lookup number_from
number_from-low i k [] h = refl
number_from-low i k (x ∷ hs) h = ground (arith, number_from-low (suc i) k hs)

pub number_from-Distinct : (i : ℕ) (hs : List ℕ) → Distinct (number_from i hs)
unfolding number_from
number_from-Distinct i [] = tt
number_from-Distinct i (h ∷ hs) =
    (number_from-low (suc i) i hs (omega arith), number_from-Distinct (suc i) hs)

-- The presence check passes if every index has a source.
pub all_present_lem :
    (unchanged : List ℕ) (vectors : Table Vector) (i n : ℕ)
    → ((k : ℕ) → i ≤ k → k < i + n → (elem k unchanged || is_some (lookup k vectors)) ≡ true)
    → all_present unchanged vectors i n ≡ true
unfolding all_present
all_present_lem unchanged vectors i zero h = refl
all_present_lem unchanged vectors i (suc n) h =
    rw (h i (omega arith) (omega arith))
      (all_present_lem unchanged vectors (suc i) n (λ k lo hi. h k (omega arith) (omega arith)))

-- The merged vectors, index by index.
pub lookup-merge :
    (g : ℕ → Vector) (k : ℕ) (is : List ℕ) (t : Table Vector)
    → lookup k (merge is (map g is) t) ≡ (if elem k is then some (g k) else lookup k t)
unfolding merge elem
lookup-merge g k [] t = refl
lookup-merge g k (i ∷ is) t = ground (
  arith,
  lookup-merge g k is (upsert i (g i) (λ _. g i) t),
  lookup-upsert i k (g i) (λ _. g i) t,
  ==_iff i k,
)

all_sized-upsert :
    (dimensions i : ℕ) (v : Vector) (t : Table Vector)
    → length v ≡ dimensions
    → all_sized dimensions t ≡ true
    → all_sized dimensions (upsert i v (λ _. v) t) ≡ true
unfolding all_sized upsert
all_sized-upsert dimensions i v [] e h = ground arith
all_sized-upsert dimensions i v ((j, w) ∷ t) e h = ground (arith, all_sized-upsert dimensions i v t)

pub all_sized-merge :
    (dimensions : ℕ) (g : ℕ → Vector) (is : List ℕ) (t : Table Vector)
    → ((k : ℕ) → length (g k) ≡ dimensions)
    → all_sized dimensions t ≡ true
    → all_sized dimensions (merge is (map g is) t) ≡ true
unfolding merge
all_sized-merge dimensions g [] t e h = h
all_sized-merge dimensions g (i ∷ is) t e h =
    all_sized-merge dimensions g is (upsert i (g i) (λ _. g i) t) e
      (all_sized-upsert dimensions i (g i) t (e i) h)

pub check_unchanged_lem :
    (embedding : ℕ → Vector) (stored : Table ℕ) (rows : Table Vector) (all : List ℕ) (is : List ℕ)
    → All (Kept embedding stored rows all) is
    → check_unchanged is rows stored all ≡ ok tt
unfolding check_unchanged
check_unchanged_lem embedding stored rows all [] a = refl
check_unchanged_lem embedding stored rows all (i ∷ is) a =
    let (h, at, same, there) = a.0 in
    ground (arith, check_unchanged_lem embedding stored rows all is a.1)
