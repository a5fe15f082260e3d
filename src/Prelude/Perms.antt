-- ===== src/Prelude/Perms.antt =====
-- Permutations of lists: what they keep, and the objects at permuted places.
use mathlib.Core.Logic.{∥∥₁_elim}
use mathlib.Core.List.{Perm, Permᴰ, append-nil, append_assoc, Perm-prop, List, [], ◌∷◌, ◌++◌}
use mathlib.Core.List.Perm
use mathlib.Core.Path.{◌≡◌, refl, ap, ◌∙◌}
use mathlib.Core.Bool.{Bool}
use native.Mathlib.Omega.{arith}
use native.Mathlib.Nat.{ℕ_set}
use Prim.Native.Nat.{ℕ, suc}
use memstem.Prelude.Tests.{==_iff}
use memstem.Prelude.Lists.{All, length, elem}
use memstem.Prelude.Counting.{NoRepeat}

Permᴰ-length {ℓ} : {A : Type ℓ} {xs ys : List A} → Permᴰ xs ys → length xs ≡ length ys
Permᴰ-length Permᴰ.nil = refl
Permᴰ-length (Permᴰ.cons e d) = ap suc (Permᴰ-length d)
Permᴰ-length (Permᴰ.swap e e') = refl
Permᴰ-length (Permᴰ.trans d d') = Permᴰ-length d ∙ Permᴰ-length d'

pub length-perm {ℓ} : {A : Type ℓ} {xs ys : List A} → Perm xs ys → length xs ≡ length ys
length-perm p = ∥∥₁_elim p (ℕ_set _ _) Permᴰ-length

elem-Permᴰ : (k : ℕ) {xs ys : List ℕ} → Permᴰ xs ys → elem k xs ≡ elem k ys
unfolding elem
elem-Permᴰ k Permᴰ.nil = refl
elem-Permᴰ k (Permᴰ.cons e d) = ground (arith, e, elem-Permᴰ k d)
elem-Permᴰ k (Permᴰ.swap e e') = ground (arith, e, e')
elem-Permᴰ k (Permᴰ.trans d d') = elem-Permᴰ k d ∙ elem-Permᴰ k d'

pub elem-perm : (k : ℕ) {xs ys : List ℕ} → Perm xs ys → elem k xs ≡ elem k ys
elem-perm k p = ∥∥₁_elim p (hlevel) (elem-Permᴰ k)

Permᴰ-NoRepeat : {xs ys : List ℕ} → Permᴰ xs ys → NoRepeat xs → NoRepeat ys
unfolding elem
Permᴰ-NoRepeat Permᴰ.nil n = tt
Permᴰ-NoRepeat (Permᴰ.cons {b = b} e d) n =
    (ground (arith, e, elem-Permᴰ b d, n), Permᴰ-NoRepeat d n.1)
Permᴰ-NoRepeat (Permᴰ.swap {a = a} {b = b} e e') n =
    ground (arith, e, e', n, ==_iff a b, ==_iff b a)
Permᴰ-NoRepeat (Permᴰ.trans d d') n = Permᴰ-NoRepeat d' (Permᴰ-NoRepeat d n)

NoRepeat-IsProp : (xs : List ℕ) → IsProp (NoRepeat xs)
NoRepeat-IsProp [] = hlevel
NoRepeat-IsProp (x ∷ xs) = hlevel (NoRepeat-IsProp xs)

pub perm-NoRepeat : {xs ys : List ℕ} → Perm xs ys → NoRepeat xs → NoRepeat ys
perm-NoRepeat {xs} {ys} p n = ∥∥₁_elim p (NoRepeat-IsProp ys) (λ d. Permᴰ-NoRepeat d n)

All_at-IsProp {ℓ} :
    {A : Type ℓ} (p : A → Bool) (b : Bool) (xs : List A) → IsProp (All (λ x. p x ≡ b) xs)
All_at-IsProp p b [] = hlevel
All_at-IsProp p b (x ∷ xs) = hlevel (All_at-IsProp p b xs)

Permᴰ-All_at {ℓ} :
    {A : Type ℓ} (p : A → Bool) (b : Bool) {xs ys : List A}
    → Permᴰ xs ys
    → All (λ x. p x ≡ b) xs
    → All (λ x. p x ≡ b) ys
Permᴰ-All_at p b Permᴰ.nil a = tt
Permᴰ-All_at p b (Permᴰ.cons e d) a = (rw (← e) (a.0), Permᴰ-All_at p b d a.1)
Permᴰ-All_at p b (Permᴰ.swap e e') a = (rw (← e') (a.1.0), (rw (← e) (a.0), a.1.1))
Permᴰ-All_at p b (Permᴰ.trans d d') a = Permᴰ-All_at p b d' (Permᴰ-All_at p b d a)

-- Every element of a permuted list passes or fails a test when every element of the list does.
pub perm-All_at {ℓ} :
    {A : Type ℓ} (p : A → Bool) (b : Bool) {xs ys : List A}
    → Perm xs ys
    → All (λ x. p x ≡ b) xs
    → All (λ x. p x ≡ b) ys
perm-All_at p b {xs} {ys} perm a = ∥∥₁_elim perm (All_at-IsProp p b ys) (λ d. Permᴰ-All_at p b d a)

pub middle-perm {ℓ} : {A : Type ℓ} (x : A) (xs ys : List A) → Perm (xs ++ x ∷ ys) (x ∷ (xs ++ ys))
middle-perm x [] ys = Perm.rfl
middle-perm x (y ∷ xs) ys =
    Perm.trans (Perm.cons y (middle-perm x xs ys)) (Perm.swap x y (xs ++ ys))

pub append-perm {ℓ} : {A : Type ℓ} (xs ys : List A) → Perm (xs ++ ys) (ys ++ xs)
append-perm [] ys = rw append-nil Perm.rfl
append-perm (x ∷ xs) ys =
    Perm.trans (Perm.cons x (append-perm xs ys)) (Perm.symm (middle-perm x ys xs))

-- the lists that the elements give, one after another
abbrev pub gather {ℓ κ} : {A : Type ℓ} {B : Type κ} → (A → List B) → List A → List B
gather g [] = []
gather g (x ∷ xs) = g x ++ gather g xs

module _ {ℓ κ} {A : Type ℓ} {B : Type κ} (g : A → List B) where
  gather-Permᴰ : {xs ys : List A} → Permᴰ xs ys → Perm (gather g xs) (gather g ys)
  gather-Permᴰ Permᴰ.nil = Perm.rfl
  gather-Permᴰ (Permᴰ.cons {b = b} e d) = rw e (Perm.append_left (g b) (gather-Permᴰ d))
  gather-Permᴰ (Permᴰ.swap {a = a} {b = b} {l = l} e e') =
      rw
        (
          ← e,
          ← e',
          ← append_assoc (g a) (g b) (gather g l),
          ← append_assoc (g b) (g a) (gather g l),
        )
        (Perm.append_right (gather g l) (append-perm (g a) (g b)))
  gather-Permᴰ (Permᴰ.trans d d') = Perm.trans (gather-Permᴰ d) (gather-Permᴰ d')

  pub gather-perm : {xs ys : List A} → Perm xs ys → Perm (gather g xs) (gather g ys)
  gather-perm p = ∥∥₁_elim p Perm-prop gather-Permᴰ
