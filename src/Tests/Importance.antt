-- ===== src/Tests/Importance.antt =====
-- Sweeps over a log of three rows, with whole numbers in hundredths for the importance.
use mathlib.Core.Option
use Prim.Native.Nat.{◌/◌}
use memstem.Prelude.{
  ℕ, ◌+◌, ◌-◌, ◌*◌, ◌≡◌, refl, true, false, ◌⊎◌, some, none, [], ◌∷◌, ◌++◌, arith, filter, leb, ltb,
}
use memstem.Prelude.Sorting.{sort_by}
use memstem.Prelude.Table.{lookup, upsert}
use memstem.Importance.{
  Reals, get, LogRow, Note, State, read_cursor, rows_after, is_skip, current_importance,
  set_importance, compute_importance_updates, apply_importance_updates,
}
use memstem.Importance.Rows.{apply-rows_after}
use memstem.Importance.Sweep.{total_of, improve, proposed, sweep, sweep-lookup}
use memstem.Importance.Bounds.{IsOrdered, sweep-IsRaise}

abbrev reals : Reals ℕ
reals = record {
  add = λ a b. a + b;
  sub = λ a b. a - b;
  mul = λ a b. a * b;
  divide = λ a n. a / n;
  less = ltb;
  leq = leb;
  nought = 0;
  half = 50;
  one = 100;
  get_weight = 5;
  search_weight_root = 1;
  max_bump_per_run = 10;
}

reals-IsOrdered : IsOrdered reals
reals-IsOrdered = record {
  leq_refl = λ x. ground arith;
  leq_trans = λ x y z h h'. ground (arith, h, h');
  less_leq = λ x y h. ground (arith, h);
  not-less_leq = λ x y h. ground (arith, h);
  leq-add = λ c x y h. ground (arith, h);
}

abbrev opened : ℕ → ℕ → LogRow
opened id m = record { id = id; ts = some 90; kind = get; memory_id = m; rank = none }

abbrev note : Note ℕ
note = record { importance = none; deprecated_by = none; valid_to = none }

abbrev old_note : Note ℕ
old_note = record { importance = some 20; deprecated_by = some 1; valid_to = none }

-- memory 2 is deprecated; the cursor stands at row 4
abbrev s : State ℕ
s = record {
  cursor = some (some 4);
  query_log = opened 4 1 ∷ opened 5 1 ∷ opened 6 2 ∷ [];
  memories = (1, note) ∷ (2, old_note) ∷ [];
  reindexed = [];
}

swept-run : lookup 1 (sweep reals 100 100 s).memories ≡ some (record note { importance = some 60 })
unfolding compute_importance_updates apply_importance_updates lookup upsert sort_by filter
    Option.bind
swept-run = refl

last-run : (compute_importance_updates reals 100 s).last_seen_id ≡ 6
unfolding compute_importance_updates sort_by filter
last-run = refl

newer : ltb (compute_importance_updates reals 100 s).last_seen_id 7 ≡ true
newer = rw last-run refl

apply-rows_after_example :
    let after = (apply_importance_updates reals 100 (compute_importance_updates reals 100 s) s).0 in
    rows_after (read_cursor after.cursor) (after.query_log ++ opened 7 2 ∷ [])
    ≡ sort_by (λ a b. leb a.id b.id) (opened 7 2 ∷ [])
apply-rows_after_example = apply-rows_after reals 100 100 s (opened 7 2 ∷ []) (newer, tt)

sweep-lookup_example :
    lookup 1 (sweep reals 100 100 s).memories
    ≡ Option.map
        (improve reals 100
          (proposed reals 100 s.memories 1 (total_of reals 100 1 (rows_after 4 s.query_log) none)))
        (lookup 1 s.memories)
sweep-lookup_example = sweep-lookup reals 100 100 s 1

first : lookup 1 s.memories ≡ some note
unfolding lookup
first = refl

sweep-IsRaise_example :
    (after : Note ℕ) × (lookup 1 (sweep reals 100 100 s).memories ≡ some after)
    × ((after ≡ note)
        ⊎ ((p : ℕ) × (after ≡ set_importance reals p note)
            × (is_skip reals note 100 ≡ false)
            × (leb p (current_importance reals note) ≡ false)
            × (leb p 100 ≡ true)
            × (leb p (current_importance reals note + 10) ≡ true)))
sweep-IsRaise_example = sweep-IsRaise reals 100 100 s 1 note reals-IsOrdered first
