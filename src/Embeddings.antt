-- ===== src/Embeddings.antt =====
-- src/memstem/core/embeddings.py: the circuit breaker of an embedder, and the chunks of a text. A text is a list
-- of code points; times are numbers of one clock.
pub mod Circuit
pub mod Ink
pub mod Chunks
use memstem.Prelude.{
  ℕ, zero, suc, ◌+◌, Bool, true, false, not, ◌&&◌, ◌||◌, Option, none, some, List, [], ◌∷◌, ◌++◌,
  map, length, take, drop, filter, ltb, leb, ◌==◌, if◌then◌else◌,
}
use memstem.Worker.{Reply, vectors, transient, refused}

-- `_cb_state`
pub record Breaker : Type 0 where
  pub fails : ℕ
  pub open_until : ℕ

abbrev pub closed : Breaker
closed = record { fails = 0; open_until = 0 }

abbrev pub is_open : ℕ → Breaker → Bool
is_open now s = not (s.open_until == 0) && ltb now s.open_until

-- the handler of `TransientEmbeddingError`
abbrev pub count_failure : ℕ → ℕ → ℕ → Breaker → Breaker
count_failure threshold cooldown now s = record {
  fails = suc s.fails;
  open_until = if leb threshold (suc s.fails) then now + cooldown else s.open_until;
}

-- what the provider's reply, at time `later`, makes of the state
abbrev pub after_reply : ℕ → ℕ → ℕ → Reply → Breaker → Breaker
after_reply threshold cooldown later (vectors vs) s = if ltb 0 threshold then closed else s
after_reply threshold cooldown later transient s =
    if ltb 0 threshold then count_failure threshold cooldown later s else s
after_reply threshold cooldown later (refused e) s = s

-- the state, what the caller gets, and whether the provider was called
unfoldable pub guarded : ℕ → ℕ → ℕ → ℕ → Reply → Breaker → Breaker × Reply × Bool
guarded threshold cooldown now later reply s =
    if ltb 0 threshold && is_open now s
    then (s, transient, false)
    else (after_reply threshold cooldown later reply s, reply, true)

-- the code points that `str.strip` takes off
unfoldable pub is_space : ℕ → Bool
is_space c =
    (leb 9 c && leb c 13)
    || (leb 28 c && leb c 32)
    || c == 133
    || c == 160
    || c == 5760
    || (leb 8192 c && leb c 8202)
    || c == 8232
    || c == 8233
    || c == 8239
    || c == 8287
    || c == 12288

abbrev pub is_blank : List ℕ → Bool
is_blank [] = true
is_blank (c ∷ cs) = false

unfoldable pub lstrip : List ℕ → List ℕ
unfolding is_space
lstrip [] = []
lstrip (c ∷ cs) = let rest = lstrip cs in if is_space c then rest else c ∷ cs

unfoldable pub rstrip : List ℕ → List ℕ
unfolding is_space
rstrip [] = []
rstrip (c ∷ cs) = let rest = rstrip cs in if is_blank rest && is_space c then [] else c ∷ rest

unfoldable pub strip : List ℕ → List ℕ
unfolding lstrip rstrip
strip text = rstrip (lstrip text)

abbrev pub push : ℕ → List (List ℕ) → List (List ℕ)
push c [] = (c ∷ []) ∷ []
push c (p ∷ ps) = (c ∷ p) ∷ ps

-- text.split("\n\n")
unfoldable pub split_paragraphs : List ℕ → List (List ℕ)
split_paragraphs [] = [] ∷ []
split_paragraphs (c ∷ []) = (c ∷ []) ∷ []
split_paragraphs (c ∷ d ∷ text) =
    let cut = [] ∷ split_paragraphs text in
    let longer = push c (split_paragraphs (d ∷ text)) in
    if (c == 10) && (d == 10) then cut else longer

-- the slices of a paragraph, on fuel: its length is enough
unfoldable pub hard_cut : ℕ → ℕ → List ℕ → List (List ℕ)
hard_cut max_chars zero para = []
hard_cut max_chars (suc fuel) [] = []
hard_cut max_chars (suc fuel) (c ∷ cs) =
    take max_chars (c ∷ cs) ∷ hard_cut max_chars fuel (drop max_chars (c ∷ cs))

abbrev pub emit : List ℕ → List (List ℕ)
emit [] = []
emit (c ∷ cs) = (c ∷ cs) ∷ []

abbrev pub candidate : List ℕ → List ℕ → List ℕ
candidate [] para = para
candidate (c ∷ cs) para = (c ∷ cs) ++ 10 ∷ 10 ∷ para

-- the loop over the paragraphs: the chunks that it still appends
unfoldable pub pack : ℕ → List ℕ → List (List ℕ) → List (List ℕ)
unfolding hard_cut
pack max_chars current [] = emit current
pack max_chars current (para ∷ paragraphs) =
    let long =
      emit current ++ hard_cut max_chars (length para) para ++ pack max_chars [] paragraphs in
    let next = current ∷ pack max_chars para paragraphs in
    let grow = pack max_chars (candidate current para) paragraphs in
    if ltb max_chars (length para)
    then long
    else if ltb max_chars (length (candidate current para))
    then next
    else grow

-- none is the ValueError of a range whose step is 0
unfoldable pub chunk_text : List ℕ → ℕ → Option (List (List ℕ))
unfolding strip split_paragraphs pack
chunk_text text max_chars =
    if is_blank (strip text)
    then some []
    else if leb (length text) max_chars
    then some (strip text ∷ [])
    else if max_chars == 0
    then none
    else some
        (pack max_chars [] (filter (λ p. not (is_blank p)) (map strip (split_paragraphs text))))
