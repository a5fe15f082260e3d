-- ===== src/Worker/One.antt =====
-- src/memstem/core/embed_worker.py: the embedding of one record, over all its branches.
use mathlib.Core.Option
use memstem.Prelude.{
  ℕ, suc, ◌+◌, ◌≡◌, refl, ◌∙◌, ap, Bool, true, false, ◌&&◌, Option, none, some, List, [], ◌∷◌, ◌++◌,
  arith, get_elem?, length, All, ◌==◌, is_some, Bool-cases, Option-cases, inl, inr, ◌⊎◌,
}
use memstem.Prelude.Table.{Table, lookup}
use memstem.Index.Result.{ok, err, stale_plan, read_error}
use memstem.Index.Store.{Index, Vector, has_memory}
use memstem.Index.Vectors.{
  VectorReusePlan, plan_vector_reuse, plan_from, merge, apply_vectors, all_present, all_sized,
  check_unchanged, is_hash, source_of, copy_source, by_index, trusts,
}
use memstem.Prelude.Sorting.{sort_by}
use memstem.Worker.{
  File, raising, absent, invalid, readable, Reply, vectors, transient, refused, Environment,
  Settings, Outcome, embed_one, embed_content, embed_misses, released, failed, write_reply, stored,
  embed_file, read_for_embed, path_of, value_message, count_error,
}

-- every unchanged index of a plan is an index of the hashes
plan_from-in_range :
    (kept : Table ℕ) (rows : Table Vector) (all : List ℕ) (i : ℕ) (hs : List ℕ)
    → ((j : ℕ) → get_elem? all (i + j) ≡ get_elem? hs j)
    → All (λ k. is_some (get_elem? all k) ≡ true) (plan_from kept rows i hs).unchanged
unfolding plan_from
plan_from-in_range kept rows all i [] at = tt
plan_from-in_range kept rows all i (h ∷ hs) at =
    let rest =
      plan_from-in_range kept rows all (suc i) hs
        (λ j. ap (get_elem? all) (omega arith) ∙ at (suc j)) in
    let here : get_elem? all i ≡ some h = ap (get_elem? all) (omega arith) ∙ at 0 in
    elim (Bool-cases (is_hash (lookup i kept) h && is_some (lookup i rows))) [
      | inl keep ↦ rw keep (rw here refl, rest)
      | inr other ↦
          rw other
            (elim (Option-cases (copy_source (source_of h (sort_by by_index kept) rows) rows)) [
              | inl missing ↦ rw missing rest
              | inr (v, found) ↦ rw found rest
            ])
    ]

plan-in_range :
    (m : ℕ) (hashes : List ℕ) (signature : ℕ) (ix : Index)
    → All
        (λ k. is_some (get_elem? hashes k) ≡ true)
        (plan_vector_reuse m hashes signature ix).unchanged
unfolding plan_vector_reuse
plan-in_range m hashes signature ix =
    elim (Bool-cases (trusts signature (lookup m ix.embed_state) (ix.hash_owner m))) [
      | inl trusted ↦ rw trusted (
          plan_from-in_range (ix.chunk_hashes m) (ix.vectors m) hashes 0 hashes
            (λ j. ap (get_elem? hashes) (omega arith)))
      | inr other ↦ rw other tt
    ]

-- with indexes in range, the check of the plan passes or finds the plan stale
check_unchanged-in_range :
    (is : List ℕ) (rows : Table Vector) (kept : Table ℕ) (hashes : List ℕ)
    → All (λ k. is_some (get_elem? hashes k) ≡ true) is
    → (check_unchanged is rows kept hashes ≡ ok tt)
      ⊎ (check_unchanged is rows kept hashes ≡ err stale_plan)
unfolding check_unchanged
check_unchanged-in_range [] rows kept hashes a = inl refl
check_unchanged-in_range (i ∷ is) rows kept hashes a =
    elim (check_unchanged-in_range is rows kept hashes a.1) [
      | inl fine ↦
          elim (Bool-cases (
            is_some (lookup i rows)
            && is_hash (lookup i kept) (Option.get_or (get_elem? hashes i) 0))) [
              | inl both ↦ inl (ground (arith, a.0))
              | inr other ↦ inr (ground (arith, a.0))
            ]
      | inr stale ↦ inr (ground (arith, a.0))
    ]

stored-returns :
    (st : Settings) (m token body : ℕ) (hashes : List ℕ) (found : Table Vector) (is : List ℕ)
    (ix : Index)
    → All (λ k. is_some (get_elem? hashes k) ≡ true) is
    → (o : Outcome) × (stored st m token body ix
          (apply_vectors st.dimensions m hashes found is (some body) ix)
        ≡ ok o)
unfolding apply_vectors
stored-returns st m token body hashes found is ix a =
    elim (Bool-cases (all_present is found 0 (length hashes))) [
      | inr e ↦ (failed m value_message st.max_retries ix, rw e)
      | inl e ↦ elim (Bool-cases (all_sized st.dimensions found)) [
        | inr e' ↦ (failed m value_message st.max_retries ix, rw (e, e'))
        | inl e' ↦ elim (Bool-cases (has_memory m ix)) [
          | inr gone ↦ rw (e, e', gone) (_, refl)
          | inl there ↦
              elim (check_unchanged-in_range is (ix.vectors m) (ix.chunk_hashes m) hashes a) [
                | inl fine ↦ rw (e, e', there, fine) (_, refl)
                | inr stale ↦ (released m false ix, rw (e, e', there, stale))
              ]
        ]
      ]
    ]

write_reply-returns :
    (st : Settings) (m token body : ℕ) (hashes : List ℕ) (plan : VectorReusePlan) (missed : List ℕ)
    (reply : Reply) (ix : Index)
    → All (λ k. is_some (get_elem? hashes k) ≡ true) plan.unchanged
    → (o : Outcome) × (write_reply st m token body hashes plan missed reply ix ≡ ok o)
write_reply-returns st m token body hashes plan missed transient ix a = (_, refl)
write_reply-returns st m token body hashes plan missed (refused e) ix a = (_, refl)
write_reply-returns st m token body hashes plan missed (vectors fresh) ix a =
    elim (Bool-cases (length fresh == length missed)) [
      | inl same ↦ rw same (
          stored-returns st m token body hashes (merge missed fresh plan.copied) plan.unchanged ix
            a)
      | inr other ↦ (failed m count_error st.max_retries ix, rw other)
    ]

embed_content-returns :
    (env : Environment) (st : Settings) (m token body n_text : ℕ) (hashes : List ℕ) (ix : Index)
    → (o : Outcome) × (embed_content env st m token body n_text hashes ix ≡ ok o)
unfolding embed_content
embed_content-returns env st m token body n_text [] ix = (_, refl)
embed_content-returns env st m token body n_text (h ∷ hs) ix =
    write_reply-returns st m token body (h ∷ hs) _ _ (embed_misses env (h ∷ hs) n_text _)
      (env.meanwhile ix) (plan-in_range m (h ∷ hs) st.signature ix)

-- the exceptions of `Vault.read` that nothing handles
abbrev pub is_raising : File → Bool
is_raising raising = true
is_raising _ = false

embed_file-returns :
    (env : Environment) (st : Settings) (m token : ℕ) (file : File) (ix : Index)
    → is_raising file ≡ false
    → (o : Outcome) × (embed_file env st m token file ix ≡ ok o)
embed_file-returns env st m token raising ix read = absurd (ground (arith, read))
embed_file-returns env st m token absent ix read = (_, refl)
embed_file-returns env st m token (invalid e) ix read = (_, refl)
embed_file-returns env st m token (readable c) ix read =
    embed_content-returns env st m token c.body (length c.text_chunks)
      (c.text_chunks ++ c.image_urls) ix

reads_none :
    (files : ℕ → File) (path : Option ℕ)
    → ((p : ℕ) → is_raising (files p) ≡ false)
    → is_raising (read_for_embed files path) ≡ false
reads_none files none h = refl
reads_none files (some p) h = h p

-- Where `Vault.read` raises nothing but the two exceptions that are handled, the embedding of a record raises
-- nothing, whatever the embedder and other threads do.
pub embed_one-returns :
    (env : Environment) (st : Settings) (m token : ℕ) (ix : Index)
    → ((p : ℕ) → is_raising (env.files p) ≡ false)
    → (o : Outcome) × (embed_one env st m token ix ≡ ok o)
unfolding embed_one
embed_one-returns env st m token ix read =
    embed_file-returns env st m token _ ix (reads_none env.files (path_of m ix) read)

-- Where it raises another one, so does the embedding, and the row keeps its claim.
pub embed_one-raises :
    (env : Environment) (st : Settings) (m token path : ℕ) (ix : Index)
    → path_of m ix ≡ some path
    → env.files path ≡ raising
    → embed_one env st m token ix ≡ err read_error
unfolding embed_one
embed_one-raises env st m token path ix at file = rw (at, file) refl
