-- ===== src/Tests/Mmr.antt =====
-- Three candidates with whole numbers for the scores; the third has no vector.
use Prim.Native.Nat.{◌/◌}
use memstem.Prelude.{
  ltb, ℕ, ◌+◌, ◌-◌, ◌*◌, ◌≡◌, refl, Option, some, none, List, [], ◌∷◌, ◌==◌, if◌then◌else◌,
}
use memstem.Mmr.{Numbers, mmr_rerank, select}
use memstem.Mmr.Greedy.{select_by_formula, select-formula}

abbrev dot : List ℕ → List ℕ → ℕ
dot [] b = 0
dot (x ∷ a) [] = 0
dot (x ∷ a) (y ∷ b) = x * y + dot a b

-- whole numbers, with a difference that is always above the bottom
abbrev numbers : Numbers ℕ
numbers = record {
  sub = λ a b. 1 + (a - b);
  mul = λ a b. a * b;
  div = λ a b. a / b;
  dot = dot;
  sqrt = λ a. a;
  less = ltb;
  is_zero = λ a. a == 0;
  nought = 0;
  one = 1;
  bottom = 0;
}

abbrev vector : ℕ → Option (List ℕ)
vector c = if c == 3 then none else some (c ∷ 1 ∷ [])

mmr_rerank-run : mmr_rerank numbers (1 ∷ 2 ∷ 3 ∷ []) (1 ∷ 0 ∷ []) vector 1 3 ≡ some (1 ∷ 2 ∷ 3 ∷ [])
unfolding mmr_rerank
mmr_rerank-run = refl

select-formula_example :
    select numbers 1 (λ c. c) (λ a b. a + b) 2 [] (1 ∷ 2 ∷ 3 ∷ []) (λ c. 0)
    ≡ select_by_formula numbers 1 (λ c. c) (λ a b. a + b) 2 [] (1 ∷ 2 ∷ 3 ∷ [])
select-formula_example = select-formula numbers 1 (λ c. c) (λ a b. a + b) 2 (1 ∷ 2 ∷ 3 ∷ [])
