-- ===== src/Index/Result.antt =====
-- What a method of the index raises, and `read_error` for what the reading of a file raises that nothing handles. A method is one transaction: a raise leaves the state as it was.
pub data Error : Type 0 where
  integrity_error value_error stale_plan index_error read_error : Error

pub data Result {ℓ} (A : Type ℓ) : Type ℓ where
  ok : A → Result A
  err : Error → Result A

infixl 5 ◌>>=◌
abbrev pub ◌>>=◌ {ℓ κ} : {A : Type ℓ} {B : Type κ} → Result A → (A → Result B) → Result B
ok a >>= f = f a
err e >>= f = err e
