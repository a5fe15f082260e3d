-- ===== src/Frontmatter/Coerced.antt =====
-- src/memstem/core/frontmatter.py: when `coerce` gives a header, and that it changes nothing twice.
use mathlib.Core.Option
use memstem.Prelude.{
  ℕ, ◌≡◌, refl, Bool, true, false, not, Option, none, some, arith, is_some, ◌==◌, inl, inr,
  Bool-cases,
}
use memstem.Frontmatter.{
  Value, text, moment, sequence, mapping, Metadata, Platform, Call, returned, type_error,
  validation_error, truthy, as_datetime, is_uuid, is_valid_type, coerce_type, coerce_dates,
  coerce_id, coerce_source, demote_skill, normalized,
}

-- a value that can be hashed
abbrev pub is_hashable : Value → Bool
is_hashable (sequence items) = false
is_hashable (mapping m) = false
is_hashable _ = true

-- a source that is a text, or is replaced by one
abbrev pub is_source : Value → Bool
is_source (text t) = true
is_source v = not (truthy v)

module _ {F : Type 0} (p : Platform F) where
  -- what every step of the normalization leaves alone
  abbrev pub IsNormal : Metadata → Type 0
  IsNormal m =
      (is_some (as_datetime p m.created) ≡ true)
      × (is_some (as_datetime p m.updated) ≡ true)
      × (is_uuid p m.id ≡ true)
      × (truthy m.source ≡ true)

  now_parses : (now : ℕ) → is_some (as_datetime p (moment now)) ≡ true
  unfolding as_datetime
  now_parses now = refl

  dates-parse :
      (now : ℕ) (m : Metadata)
      → (is_some (as_datetime p (coerce_dates p now m).created) ≡ true)
        × (is_some (as_datetime p (coerce_dates p now m).updated) ≡ true)
  unfolding coerce_dates
  dates-parse now m = elim (Bool-cases (is_some (as_datetime p m.created))) [
    | inl e ↦ elim (Bool-cases (is_some (as_datetime p m.updated))) [
      | inl e' ↦ rw (e, e') (e, e')
      | inr e' ↦ rw (e, e') (e, e)
    ]
    | inr e ↦ elim (Bool-cases (is_some (as_datetime p m.updated))) [
      | inl e' ↦ rw (e, e') (now_parses now, e')
      | inr e' ↦ rw (e, e') (now_parses now, now_parses now)
    ]
  ]

  id-is_uuid : (path : Option ℕ) (m : Metadata) → is_uuid p (coerce_id p path m).id ≡ true
  unfolding coerce_id is_uuid
  id-is_uuid path m = elim (Bool-cases (is_uuid p m.id)) [ inl e ↦ rw e e | inr e ↦ rw e refl ]

  source-truthy : (m : Metadata) → truthy (coerce_source p m).source ≡ true
  unfolding coerce_source
  source-truthy m = elim (Bool-cases (truthy m.source)) [ inl e ↦ rw e e | inr e ↦ rw e refl ]

  -- the last step changes the type alone
  demote-fields :
      (m : Metadata)
      → ((demote_skill p m).id ≡ m.id)
        × ((demote_skill p m).created ≡ m.created)
        × ((demote_skill p m).updated ≡ m.updated)
        × ((demote_skill p m).source ≡ m.source)
  unfolding demote_skill
  demote-fields m = ground arith

  normalized-IsNormal :
      (path : Option ℕ) (now : ℕ) (valid : Bool) (meta : Metadata)
      → IsNormal (normalized p path now valid meta)
  unfolding coerce_source coerce_id
  normalized-IsNormal path now valid meta =
      let dated = coerce_dates p now (coerce_type p valid meta) in
      let named = coerce_id p path dated in
      let (a, b, c, d) = demote-fields (coerce_source p named) in
      let (created, updated) = dates-parse now (coerce_type p valid meta) in
      rw (a, b, c, d) (created, updated, id-is_uuid path dated, source-truthy named)

  -- a normal header of a type that needs no demotion stays as it is
  normal-stable :
      (path : Option ℕ) (now : ℕ) (m : Metadata)
      → IsNormal m
      → demote_skill p m ≡ m
      → normalized p path now true m ≡ m
  unfolding coerce_dates coerce_id coerce_source
  normal-stable path now m (created, updated, id, source) same =
      rw (created, updated, id, source) same

  demote-twice :
      (m : Metadata)
      → (p.memory_type == p.skill_type) ≡ false
      → demote_skill p (demote_skill p m) ≡ demote_skill p m
  unfolding demote_skill
  demote-twice m apart = ground (arith, apart)

  demote-kind :
      (m : Metadata)
      → p.is_type p.memory_type ≡ true
      → is_valid_type p m.kind ≡ some true
      → is_valid_type p (demote_skill p m).kind ≡ some true
  unfolding demote_skill is_valid_type
  demote-kind m memory valid = ground (arith, memory, valid)

  typed-kind :
      (valid : Bool) (m : Metadata)
      → p.is_type p.memory_type ≡ true
      → is_valid_type p m.kind ≡ some valid
      → is_valid_type p (coerce_type p valid m).kind ≡ some true
  unfolding is_valid_type
  typed-kind true m memory e = e
  typed-kind false m memory e = rw memory refl

  normalized-kind :
      (path : Option ℕ) (now : ℕ) (valid : Bool) (m : Metadata)
      → p.is_type p.memory_type ≡ true
      → is_valid_type p m.kind ≡ some valid
      → is_valid_type p (normalized p path now valid m).kind ≡ some true
  unfolding coerce_dates coerce_id coerce_source
  normalized-kind path now valid m memory e =
      demote-kind (coerce_source p (coerce_id p path (coerce_dates p now (coerce_type p valid m))))
        memory (typed-kind valid m memory e)

abbrev pub is_text : Value → Bool
is_text (text t) = true
is_text v = false

-- Where `memory` is a known type and not that of a skill, a header that was normalized, whose type could be
-- hashed, is normal for good: its type is known, and normalizing it again, at any time and for whatever path,
-- gives the same header, so that its id and its dates do not change from one reading of a file to the next once it
-- is written.
pub normalized-stable :
    {F : Type 0} (p : Platform F) (path path' : Option ℕ) (now now' : ℕ) (valid : Bool)
    (meta : Metadata)
    → p.is_type p.memory_type ≡ true
    → (p.memory_type == p.skill_type) ≡ false
    → is_valid_type p meta.kind ≡ some valid
    → (is_valid_type p (normalized p path now valid meta).kind ≡ some true)
      × (normalized p path' now' true (normalized p path now valid meta)
          ≡ normalized p path now valid meta)
normalized-stable p path path' now now' valid meta memory apart e =
    let last = coerce_source p (coerce_id p path (coerce_dates p now (coerce_type p valid meta))) in
    (
      normalized-kind p path now valid meta memory e,
      normal-stable p path' now' (normalized p path now valid meta)
          (normalized-IsNormal p path now valid meta) (demote-twice p last apart),
    )

-- what a call raises, if it raises
pub data Raised : Type 0 where
  a_type_error a_validation_error : Raised

abbrev pub raised_by : {A : Type 0} → Call A → Option Raised
raised_by (returned a) = none
raised_by type_error = some a_type_error
raised_by validation_error = some a_validation_error

-- the header that is validated
abbrev pub final_of : {F : Type 0} → Platform F → Option ℕ → ℕ → Metadata → Metadata
final_of p path now meta =
    normalized p path now (Option.get_or (is_valid_type p meta.kind) false) meta
