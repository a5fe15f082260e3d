-- ===== src/Tests/Frontmatter.antt =====
-- Headers of agents: one of an unknown type with no dates, and one whose type is a list.
use memstem.Prelude.{
  ◌≡◌, refl, true, false, Bool, Option, some, none, [], ◌∷◌, elem, ◌==◌, if◌then◌else◌,
}
use memstem.Frontmatter.{
  null, text, uuid, scalar, sequence, Metadata, Platform, returned, type_error, is_valid_type,
  normalized, coerce,
}
use memstem.Frontmatter.Coerced.{is_text, normalized-stable}

abbrev some_if : Bool → Metadata → Option Metadata
some_if true m = some m
some_if false m = none

-- the texts 1 and 2 name the types memory and skill; 9 is the agent; a text from 2000 on is a date
abbrev platform : Platform Metadata
platform = record {
  is_type = λ t. t == 1;
  fromisoformat = λ t. if t == 2000 then some 5 else none;
  is_uuid_text = λ t. t == 77;
  str = λ v. 40;
  path_id = λ path. path;
  new_id = 3;
  model_validate = λ m. some_if (is_text m.source) m;
  memory_type = 1;
  skill_type = 2;
  agent = 9;
}

abbrev note : Metadata
note = record {
  id = null;
  kind = text 40;
  created = text 2000;
  updated = null;
  source = null;
  tags = sequence (7 ∷ []);
  title = null;
  scope = null;
  verification = null;
  others = [];
}

note-run :
    coerce platform (some 12) 100 note
    ≡ returned (record {
      id = uuid 12;
      kind = text 1;
      created = text 2000;
      updated = text 2000;
      source = text 9;
      tags = sequence (7 ∷ 40 ∷ []);
      title = null;
      scope = null;
      verification = null;
      others = [];
    })
unfolding coerce elem
note-run = refl

-- a list as the type, as in `type: [note]`
abbrev listed : Metadata
listed = record note { kind = sequence (40 ∷ []) }

listed-run : coerce platform (some 12) 100 listed ≡ type_error
unfolding coerce
listed-run = refl

-- `source: 42`
abbrev numbered : Metadata
numbered = record note { source = scalar 42 }

unknown_type : is_valid_type platform (text 40) ≡ some false
unfolding is_valid_type
unknown_type = refl

normalized-stable_example :
    (is_valid_type platform (normalized platform (some 12) 100 false note).kind ≡ some true)
    × (normalized platform none 200 true (normalized platform (some 12) 100 false note)
        ≡ normalized platform (some 12) 100 false note)
normalized-stable_example =
    normalized-stable platform (some 12) none 100 200 false note refl refl unknown_type
