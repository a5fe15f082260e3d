-- ===== src/Frontmatter.antt =====
-- src/memstem/core/frontmatter.py: `coerce`, which makes a valid header of whatever an agent wrote. A text is a
-- number that stands for it; pydantic's validation, and the parsers of datetimes and UUIDs, are given.
pub mod Coerced
use mathlib.Core.Option
use memstem.Prelude.{
  ℕ, Bool, true, false, not, ◌&&◌, Option, none, some, List, [], ◌∷◌, ◌++◌, elem, is_some, ◌==◌,
  if◌then◌else◌,
}

-- a value of the header: None, "", 0 or False, a text, a datetime (or its ISO text, which `coerce` writes), a
-- UUID (or its text), another number, a list by its items as texts, or a dict
pub data Value : Type 0 where
  null empty falsy : Value
  text : ℕ → Value
  moment : ℕ → Value
  uuid : ℕ → Value
  scalar : ℕ → Value
  sequence : List ℕ → Value
  mapping : ℕ → Value

-- the fields that `coerce` reads or sets, null where they are missing, and the others
pub record Metadata : Type 0 where
  pub id : Value
  pub kind : Value
  pub created : Value
  pub updated : Value
  pub source : Value
  pub tags : Value
  pub title : Value
  pub scope : Value
  pub verification : Value
  pub others : List ℕ

-- the system: the texts that name a memory type, the parsers, `str`, `uuid5` of a path, a new `uuid4`, and the
-- validation of pydantic, with the header that it makes
pub record Platform (F : Type 0) : Type 0 where
  pub is_type : ℕ → Bool
  pub fromisoformat : ℕ → Option ℕ
  pub is_uuid_text : ℕ → Bool
  pub str : Value → ℕ
  pub path_id : ℕ → ℕ
  pub new_id : ℕ
  pub model_validate : Metadata → Option F
  -- MemoryType.MEMORY.value, MemoryType.SKILL.value and "agent"
  pub memory_type : ℕ
  pub skill_type : ℕ
  pub agent : ℕ

pub data Call {ℓ} (A : Type ℓ) : Type ℓ where
  returned : A → Call A
  type_error validation_error : Call A

abbrev pub truthy : Value → Bool
truthy null = false
truthy empty = false
truthy falsy = false
truthy (sequence []) = false
truthy _ = true

module _ {F : Type 0} (p : Platform F) where
  unfoldable pub as_datetime : Value → Option ℕ
  as_datetime (moment t) = some t
  as_datetime (text t) = p.fromisoformat t
  as_datetime _ = none

  unfoldable pub is_uuid : Value → Bool
  is_uuid (uuid u) = true
  is_uuid (text t) = p.is_uuid_text t
  is_uuid _ = false

  -- `raw_type not in _VALID_TYPES`: none where the value cannot be hashed, which raises a TypeError
  unfoldable pub is_valid_type : Value → Option Bool
  is_valid_type (text t) = some (p.is_type t)
  is_valid_type (sequence items) = none
  is_valid_type (mapping m) = none
  is_valid_type _ = some false

  abbrev pub listed : Value → List ℕ
  listed (sequence items) = items
  listed _ = []

  -- the label of an unknown type, kept as a tag
  unfoldable pub label_tags : Value → Value → Value
  unfolding elem
  label_tags null tags = tags
  label_tags empty tags = tags
  label_tags raw_type tags =
      let label = p.str raw_type in
      if elem label (listed tags)
      then sequence (listed tags)
      else sequence (listed tags ++ label ∷ [])

  abbrev pub coerce_type : Bool → Metadata → Metadata
  coerce_type true meta = meta
  coerce_type false meta = record meta {
    kind = text p.memory_type;
    tags = label_tags meta.kind meta.tags;
  }

  unfoldable pub coerce_dates : ℕ → Metadata → Metadata
  unfolding as_datetime
  coerce_dates now meta =
      let created = if is_some (as_datetime meta.created) then meta.created else moment now in
      let updated = if is_some (as_datetime meta.updated) then meta.updated else created in
      record meta { created = created; updated = updated }

  unfoldable pub coerce_id : Option ℕ → Metadata → Metadata
  unfolding is_uuid
  coerce_id path meta =
      let derived = Option.get_or (Option.map p.path_id path) p.new_id in
      record meta { id = if is_uuid meta.id then meta.id else uuid derived }

  unfoldable pub coerce_source : Metadata → Metadata
  coerce_source meta = record meta {
    source = if truthy meta.source then meta.source else text p.agent;
  }

  abbrev pub is_skill : Value → Bool
  is_skill (text t) = t == p.skill_type
  is_skill _ = false

  -- a skill without its required fields becomes a memory
  unfoldable pub demote_skill : Metadata → Metadata
  demote_skill meta =
      if is_skill meta.kind
        && not (truthy meta.title && (truthy meta.scope && truthy meta.verification))
      then record meta { kind = text p.memory_type }
      else meta

  -- what follows the check of the type, up to the validation
  abbrev pub normalized : Option ℕ → ℕ → Bool → Metadata → Metadata
  normalized path now valid meta =
      demote_skill (coerce_source (coerce_id path (coerce_dates now (coerce_type valid meta))))

  -- the header of the floor
  abbrev pub minimal : Metadata → Metadata
  minimal meta = record {
    id = meta.id;
    kind = text p.memory_type;
    created = meta.created;
    updated = meta.updated;
    source = meta.source;
    tags = null;
    title = null;
    scope = null;
    verification = null;
    others = [];
  }

  abbrev pub or_minimal : Option F → Option F → Call F
  or_minimal (some f) floor = returned f
  or_minimal none (some f) = returned f
  or_minimal none none = validation_error

  abbrev pub coerce_checked : Option Bool → Option ℕ → ℕ → Metadata → Call F
  coerce_checked none path now meta = type_error
  coerce_checked (some valid) path now meta =
      let final = normalized path now valid meta in
      or_minimal (p.model_validate final) (p.model_validate (minimal final))

  unfoldable pub coerce : Option ℕ → ℕ → Metadata → Call F
  unfolding is_valid_type coerce_dates coerce_id coerce_source demote_skill label_tags
  coerce path now meta = coerce_checked (is_valid_type meta.kind) path now meta
