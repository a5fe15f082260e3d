-- ===== src/Tests/Skipped.antt =====
-- A file that is skipped twice, mended, and skipped again.
use memstem.Prelude.{ℕ, ◌≡◌, refl, Bool, false, none, List, [], ◌∷◌, map, ◌==◌}
use memstem.Prelude.Sorting.{sort_by}
use memstem.Prelude.Table.{lookup, upsert, remove}
use memstem.Skipped.{SkippedFile, record_file, clear, squeeze, snapshot}
use memstem.Skipped.History.{
  Event, skipped, parsed, handle_all, row_of, failures_of, handle_all-history,
}

abbrev is_space : ℕ → Bool
is_space c = c == 32

abbrev reason : List ℕ
reason = 32 ∷ 65 ∷ 32 ∷ 32 ∷ 66 ∷ 32 ∷ []

squeeze-run : squeeze is_space false false reason ≡ 65 ∷ 32 ∷ 66 ∷ []
unfolding squeeze
squeeze-run = refl

abbrev events : List Event
events = skipped 4 reason 1 1 10 ∷ skipped 5 reason 1 1 11 ∷ skipped 4 reason 1 1 12 ∷ parsed 5 ∷ []

abbrev times : ℕ × SkippedFile → ℕ × ℕ × ℕ
times e = (e.0, e.1.since, e.1.last_seen)

events-run :
    map {B = ℕ × ℕ × ℕ} times (snapshot none (handle_all is_space events [])) ≡ (4, 10, 12) ∷ []
unfolding record_file clear snapshot lookup upsert remove sort_by
events-run = refl

handle_all-history_example :
    lookup 4 (handle_all is_space events []) ≡ row_of is_space (failures_of 4 [] events)
handle_all-history_example = handle_all-history is_space 4 events
