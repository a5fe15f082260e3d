-- ===== src/Embeddings/Ink.antt =====
-- src/memstem/core/embeddings.py: what stripping and splitting a text leave of its visible code points.
use memstem.Prelude.{
  ℕ, ◌≡◌, refl, sym, ◌∙◌, ap, true, not, ◌&&◌, List, [], ◌∷◌, ◌++◌, map, arith, filter, ◌==◌,
  Bool-cases, inl, inr,
}
use memstem.Embeddings.{is_space, is_blank, lstrip, rstrip, strip, push, split_paragraphs}

-- the code points that are no white space
abbrev pub ink : List ℕ → List ℕ
ink text = filter (λ c. not (is_space c)) text

unfoldable pub concat : List (List ℕ) → List ℕ
concat [] = []
concat (c ∷ cs) = c ++ concat cs

pub ink-append : (xs ys : List ℕ) → ink (xs ++ ys) ≡ ink xs ++ ink ys
unfolding filter
ink-append [] ys = refl
ink-append (x ∷ xs) ys = elim (Bool-cases (is_space x)) [
  | inl e ↦ rw e (ink-append xs ys)
  | inr e ↦ rw e (ap (λ t. x ∷ t) (ink-append xs ys))
]

ink-lstrip : (xs : List ℕ) → ink (lstrip xs) ≡ ink xs
unfolding filter lstrip
ink-lstrip [] = refl
ink-lstrip (x ∷ xs) = elim (Bool-cases (is_space x)) [
  | inl e ↦ rw e (ink-lstrip xs)
  | inr e ↦ rw (e, e) refl
]

pub blank-nil : (xs : List ℕ) → is_blank xs ≡ true → xs ≡ []
blank-nil [] h = refl
blank-nil (x ∷ xs) h = absurd (ground (arith, h))

ink-rstrip : (xs : List ℕ) → ink (rstrip xs) ≡ ink xs
unfolding filter rstrip
ink-rstrip [] = refl
ink-rstrip (x ∷ xs) = elim (Bool-cases (is_blank (rstrip xs) && is_space x)) [
  | inl e ↦
      let gone : rstrip xs ≡ [] = blank-nil (rstrip xs) (ground (arith, e)) in
      let space : is_space x ≡ true = ground (arith, e) in
      rw (e, space) (ap ink (sym gone) ∙ ink-rstrip xs)
  | inr e ↦ rw e (elim (Bool-cases (is_space x)) [
    | inl space ↦ rw space (ink-rstrip xs)
    | inr seen ↦ rw seen (ap (λ t. x ∷ t) (ink-rstrip xs))
  ])
]

pub ink-strip : (xs : List ℕ) → ink (strip xs) ≡ ink xs
unfolding strip
ink-strip xs = ink-rstrip (lstrip xs) ∙ ink-lstrip xs

concat-push : (c : ℕ) (ps : List (List ℕ)) → concat (push c ps) ≡ c ∷ concat ps
unfolding concat
concat-push c [] = refl
concat-push c (p ∷ ps) = refl

-- a split loses line feeds alone
pub ink-split : (text : List ℕ) → ink (concat (split_paragraphs text)) ≡ ink text
unfolding split_paragraphs concat filter is_space
ink-split [] = refl
ink-split (c ∷ []) = refl
ink-split (c ∷ d ∷ text) = elim (Bool-cases ((c == 10) && (d == 10))) [
  | inl e ↦
      let c10 : c ≡ 10 = ground (arith, e) in
      let d10 : d ≡ 10 = ground (arith, e) in rw (c10, d10) (ink-split text)
  | inr e ↦
      rw (e, concat-push c (split_paragraphs (d ∷ text)))
        (ink-append (c ∷ []) (concat (split_paragraphs (d ∷ text)))
          ∙ ap (λ t. ink (c ∷ []) ++ t) (ink-split (d ∷ text))
          ∙ sym (ink-append (c ∷ []) (d ∷ text)))
]

-- stripping the paragraphs and leaving out the blank ones loses white space alone
pub ink-paragraphs :
    (ps : List (List ℕ))
    → ink (concat (filter (λ p. not (is_blank p)) (map strip ps))) ≡ ink (concat ps)
unfolding concat filter
ink-paragraphs [] = refl
ink-paragraphs (p ∷ ps) =
    let ih = ink-paragraphs ps in
    elim (Bool-cases (is_blank (strip p))) [
      | inl e ↦ rw e (
          let gone : strip p ≡ [] = blank-nil (strip p) e in
          ih
          ∙ ap (λ t. t ++ ink (concat ps)) (ap ink (sym gone) ∙ ink-strip p)
          ∙ sym (ink-append p (concat ps)))
      | inr e ↦ rw e (
          ink-append (strip p) _
          ∙ ap (λ t. ink (strip p) ++ t) ih
          ∙ ap (λ t. t ++ ink (concat ps)) (ink-strip p)
          ∙ sym (ink-append p (concat ps)))
    ]
