-- ===== src/Embeddings/Chunks.antt =====
-- src/memstem/core/embeddings.py: the chunks of a text, their lengths and what they hold together.
use mathlib.Core.List.{append_assoc, append-nil}
use memstem.Prelude.{
  ℕ, zero, suc, ◌≤◌, ◌≡◌, refl, sym, ◌∙◌, ap, true, false, not, some, List, [], ◌∷◌, ◌++◌, map,
  arith, length, length-take, take, drop, take-drop, length-drop, filter, All, All-append, ltb, leb,
  ◌==◌, Bool-cases, inl, inr,
}
use memstem.Embeddings.{
  is_space, is_blank, lstrip, rstrip, strip, split_paragraphs, hard_cut, emit, candidate, pack,
  chunk_text,
}
use memstem.Embeddings.Ink.{
  ink, concat, ink-append, blank-nil, ink-strip, ink-split, ink-paragraphs,
}

concat-append : (xs ys : List (List ℕ)) → concat (xs ++ ys) ≡ concat xs ++ concat ys
unfolding concat
concat-append [] ys = refl
concat-append (x ∷ xs) ys =
    ap (λ t. x ++ t) (concat-append xs ys) ∙ sym (append_assoc x (concat xs) (concat ys))

concat-emit : (xs : List ℕ) → concat (emit xs) ≡ xs
unfolding concat
concat-emit [] = refl
concat-emit (x ∷ xs) = append-nil (x ∷ xs)

concat-hard_cut :
    (max_chars fuel : ℕ) (xs : List ℕ)
    → 1 ≤ max_chars
    → length xs ≤ fuel
    → concat (hard_cut max_chars fuel xs) ≡ xs
unfolding concat hard_cut
concat-hard_cut max_chars zero [] h enough = refl
concat-hard_cut max_chars zero (x ∷ xs) h enough = absurd (omega (arith, enough))
concat-hard_cut max_chars (suc fuel) [] h enough = refl
concat-hard_cut max_chars (suc fuel) (x ∷ xs) h enough =
    ap (λ t. take max_chars (x ∷ xs) ++ t)
      (concat-hard_cut max_chars fuel (drop max_chars (x ∷ xs)) h
        (omega (arith, enough, length-drop max_chars (x ∷ xs))))
    ∙ take-drop max_chars (x ∷ xs)

-- joining a paragraph to the current chunk adds line feeds alone
ink-candidate : (current para : List ℕ) → ink (candidate current para) ≡ ink (current ++ para)
unfolding filter is_space
ink-candidate [] para = refl
ink-candidate (c ∷ cs) para = ink-append (c ∷ cs) (10 ∷ 10 ∷ para) ∙ sym (ink-append (c ∷ cs) para)

ink-pack :
    (max_chars : ℕ) (current : List ℕ) (ps : List (List ℕ))
    → 1 ≤ max_chars
    → ink (concat (pack max_chars current ps)) ≡ ink (current ++ concat ps)
unfolding pack concat
ink-pack max_chars current [] h = ap ink (concat-emit current ∙ sym (append-nil current))
ink-pack max_chars current (p ∷ ps) h = elim (Bool-cases (ltb max_chars (length p))) [
  | inl e ↦
      rw
        (
          e,
          concat-append,
          concat-append,
          concat-emit,
          concat-hard_cut max_chars (length p) p h (omega arith),
        )
        (ink-append (current ++ p) _
          ∙ ap (λ t. ink (current ++ p) ++ t) (ink-pack max_chars [] ps h)
          ∙ sym (ink-append (current ++ p) (concat ps))
          ∙ ap ink (append_assoc current p (concat ps)))
  | inr e ↦ rw e (elim (Bool-cases (ltb max_chars (length (candidate current p)))) [
    | inl e' ↦ rw e' (
        ink-append current _
        ∙ ap (λ t. ink current ++ t) (ink-pack max_chars p ps h)
        ∙ sym (ink-append current (p ++ concat ps)))
    | inr e' ↦ rw e' (
        ink-pack max_chars (candidate current p) ps h
        ∙ ink-append (candidate current p) (concat ps)
        ∙ ap (λ t. t ++ ink (concat ps)) (ink-candidate current p)
        ∙ sym (ink-append (current ++ p) (concat ps))
        ∙ ap ink (append_assoc current p (concat ps)))
  ])
]

abbrev pub IsFit : ℕ → List ℕ → Type 0
IsFit max_chars chunk = (1 ≤ length chunk) × (length chunk ≤ max_chars)

hard_cut-fits :
    (max_chars fuel : ℕ) (xs : List ℕ)
    → 1 ≤ max_chars
    → All (IsFit max_chars) (hard_cut max_chars fuel xs)
unfolding hard_cut
hard_cut-fits max_chars zero xs h = tt
hard_cut-fits max_chars (suc fuel) [] h = tt
hard_cut-fits max_chars (suc fuel) (x ∷ xs) h = (
  (omega (arith, length-take max_chars (x ∷ xs)), omega (arith, length-take max_chars (x ∷ xs))),
  hard_cut-fits max_chars fuel (drop max_chars (x ∷ xs)) h,
)

emit-fits : (max_chars : ℕ) (xs : List ℕ) → length xs ≤ max_chars → All (IsFit max_chars) (emit xs)
emit-fits max_chars [] h = tt
emit-fits max_chars (x ∷ xs) h = ((omega arith, h), tt)

-- a chunk that a paragraph would overflow, though the paragraph fits, is not empty
overflow_solid :
    (max_chars : ℕ) (current p : List ℕ)
    → ltb max_chars (length p) ≡ false
    → ltb max_chars (length (candidate current p)) ≡ true
    → 1 ≤ length current
overflow_solid max_chars [] p e e' = absurd (ground (arith, e, e'))
overflow_solid max_chars (c ∷ cs) p e e' = omega arith

pack-fits :
    (max_chars : ℕ) (current : List ℕ) (ps : List (List ℕ))
    → 1 ≤ max_chars
    → length current ≤ max_chars
    → All (IsFit max_chars) (pack max_chars current ps)
unfolding pack
pack-fits max_chars current [] h small = emit-fits max_chars current small
pack-fits max_chars current (p ∷ ps) h small = elim (Bool-cases (ltb max_chars (length p))) [
  | inl e ↦ rw e (
      All-append (IsFit max_chars) (emit current ++ hard_cut max_chars (length p) p)
        (pack max_chars [] ps)
        (All-append (IsFit max_chars) (emit current) (hard_cut max_chars (length p) p)
          (emit-fits max_chars current small) (hard_cut-fits max_chars (length p) p h))
        (pack-fits max_chars [] ps h (omega arith)))
  | inr e ↦ rw e (elim (Bool-cases (ltb max_chars (length (candidate current p)))) [
    | inl e' ↦ rw e' (
      (overflow_solid max_chars current p e e', small),
      pack-fits max_chars p ps h (ground (arith, e)),
    )
    | inr e' ↦ rw e' (pack-fits max_chars (candidate current p) ps h (ground (arith, e')))
  ])
]

lstrip-fits : (text : List ℕ) → length (lstrip text) ≤ length text
unfolding lstrip
lstrip-fits [] = omega arith
lstrip-fits (c ∷ cs) = ground (arith, lstrip-fits cs)

rstrip-fits : (text : List ℕ) → length (rstrip text) ≤ length text
unfolding rstrip
rstrip-fits [] = omega arith
rstrip-fits (c ∷ cs) = ground (arith, rstrip-fits cs)

solid-length : (text : List ℕ) → is_blank text ≡ false → 1 ≤ length text
solid-length [] h = absurd (ground (arith, h))
solid-length (c ∷ cs) h = omega arith

strip-fits : (text : List ℕ) → length (strip text) ≤ length text
unfolding strip
strip-fits text = omega (arith, rstrip-fits (lstrip text), lstrip-fits text)

-- Every text has its chunks where the limit is positive. No chunk is empty or longer than the limit, and
-- together, in order, they hold every code point of the text that is not white space: what the split, the stripping
-- and the joining change is white space alone.
pub chunk_text-keeps :
    (text : List ℕ) (max_chars : ℕ)
    → 1 ≤ max_chars
    → (chunks : List (List ℕ)) × (chunk_text text max_chars ≡ some chunks)
      × All (IsFit max_chars) chunks
      × (ink (concat chunks) ≡ ink text)
unfolding chunk_text concat
chunk_text-keeps text max_chars h = elim (Bool-cases (is_blank (strip text))) [
  | inl e ↦ ([], rw e refl, tt, ap ink (sym (blank-nil (strip text) e)) ∙ ink-strip text)
  | inr e ↦ elim (Bool-cases (leb (length text) max_chars)) [
    | inl e' ↦ (
      strip text ∷ [],
      rw (e, e') refl,
      ((solid-length (strip text) e, ground (arith, e', strip-fits text)), tt),
      ap ink (append-nil (strip text)) ∙ ink-strip text,
    )
    | inr e' ↦
        let paragraphs = filter (λ p. not (is_blank p)) (map strip (split_paragraphs text)) in
        let positive : (max_chars == 0) ≡ false = ground (arith, h) in
        (
          pack max_chars [] paragraphs,
          rw (e, e', positive) refl,
          pack-fits max_chars [] paragraphs h (omega arith),
          ink-pack max_chars [] paragraphs h
              ∙ ink-paragraphs (split_paragraphs text)
              ∙ ink-split text,
        )
  ]
]
