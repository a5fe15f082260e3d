-- ===== src/Search/Status/Shadowed.antt =====
-- src/memstem/core/search.py: what the modes of `search_with_status` change of a search, and what they do not.
use mathlib.Core.Option
use memstem.Prelude.{
  ℕ, suc, ◌+◌, ◌-◌, ◌≡◌, refl, ap, ◌∙◌, Bool, true, false, Option, none, some, List, [], ◌∷◌, arith,
  max, ltb, Option-cases, Bool-cases, inl, inr,
}
use memstem.Mmr.{Numbers}
use memstem.Search.{Floats, Result}
use memstem.Search.Retrieve.{
  Semantic, materialization_raises, Engine, Waits, Request, Outcome, Run, retrieve_and_rank, leg_of,
  rank, cut_stage, rerank_stage, materialized,
}
use memstem.Search.Status.{
  Shadow, Report, asked, report, unless, search_with_status, Event, started, finished,
  searches_in_flight,
}

-- how many searches have begun and how many have ended
abbrev pub begun : List Event → ℕ
begun [] = 0
begun (started ∷ events) = suc (begun events)
begun (finished ∷ events) = begun events

abbrev pub ended : List Event → ℕ
ended [] = 0
ended (started ∷ events) = ended events
ended (finished ∷ events) = suc (ended events)

-- every search that ends had begun
abbrev pub IsBracketed : ℕ → List Event → Type 0
IsBracketed count [] = Unit
IsBracketed count (started ∷ events) = IsBracketed (suc count) events
IsBracketed count (finished ∷ events) = (ltb 0 count ≡ true) × IsBracketed (count - 1) events

-- The count of the searches in flight is the number of those that have begun and not ended, in whatever order
-- the threads begin and end them: the guard of `search_finished` at 0 is never needed.
pub searches_in_flight-begun :
    (count : ℕ) (events : List Event)
    → IsBracketed count events
    → searches_in_flight events count + ended events ≡ count + begun events
unfolding searches_in_flight
searches_in_flight-begun count [] b = refl
searches_in_flight-begun count (started ∷ events) b =
    omega (arith, searches_in_flight-begun (suc count) events b)
searches_in_flight-begun count (finished ∷ events) b =
    let same : max 0 (count - 1) ≡ count - 1 = omega arith in
    let rest = searches_in_flight-begun (count - 1) events b.1 in
    rw same (ground (arith, rest, b.0))

abbrev without_log : {S : Type 0} → Run S → Run S
without_log run = record run { logged = none }

abbrev pub quiet_report : {S : Type 0} → Run S → Report S
quiet_report run = record { outcome = run.outcome; logged = none; submitted = none }

abbrev pub shown : {S : Type 0} → Report S → Outcome S × Option (List (Result S))
shown report = (report.outcome, report.logged)

map-map :
    {A B C : Type 0} (g : B → C) (h : A → B) (o : Option A)
    → Option.map g (Option.map h o) ≡ Option.map (λ a. g (h a)) o
map-map g h none = refl
map-map g h (some a) = refl

module _ {S : Type 0} (f : Floats S) (n : Numbers S) (engine : Engine S) (request : Request S) where
  abbrev unlogged : Request S
  unlogged = record request { log_client = none }

  same_rerank :
      (results : List (Result S))
      → rerank_stage f engine unlogged results ≡ rerank_stage f engine request results
  unfolding rerank_stage
  same_rerank [] = refl
  same_rerank (r ∷ results) = refl

  same_raises :
      (leg : Semantic S)
      → materialization_raises f engine unlogged leg ≡ materialization_raises f engine request leg
  unfolding materialization_raises
  same_raises leg = refl

  -- without a client the search only leaves out its rows of the log
  retrieve_unlogged :
      (waits : Waits)
      → retrieve_and_rank f n engine waits unlogged
        ≡ Option.map without_log (retrieve_and_rank f n engine waits request)
  unfolding retrieve_and_rank rank materialized
  retrieve_unlogged waits =
      let leg = leg_of engine waits request in
      let pool = materialized f engine request leg in
      let raises = same_raises leg in
      elim (Bool-cases (materialization_raises f engine request leg)) [
        | inl broken ↦ rw (rank, raises, broken) refl
        | inr whole ↦ elim (Option-cases (rerank_stage f engine request pool)) [
          | inl e ↦ rw (rank, raises, whole, same_rerank pool, e) refl
          | inr (out, e) ↦
              elim (Option-cases
                (cut_stage n engine request.mmr_lambda leg.query_embedding request.limit out)) [
                  | inl e' ↦ rw (rank, raises, whole, same_rerank pool, e, e') refl
                  | inr (served, e') ↦ rw (rank, raises, whole, same_rerank pool, e, e') refl
                ]
        ]
      ]

-- A read-only search serves what the search would serve, and writes nothing: no row of the log, and nothing for
-- the shadow reranker, whatever the caller passes.
pub search_with_status-read_only :
    {S : Type 0} (f : Floats S) (n : Numbers S) (engine : Engine S) (waits : Waits)
    (shadow : Option (Shadow S)) (shadow_client : Option ℕ) (request : Request S)
    → search_with_status f n engine waits true shadow shadow_client request
      ≡ Option.map quiet_report (retrieve_and_rank f n engine waits request)
unfolding search_with_status
search_with_status-read_only f n engine waits shadow shadow_client request =
    let once = record request { log_client = none } in
    ap (Option.map (λ run. report once run none)) (retrieve_unlogged f n engine request waits)
    ∙ map-map (λ run. report once run none) without_log (retrieve_and_rank f n engine waits request)

shown-report :
    {S : Type 0} (read_only : Bool) (shadow : Shadow S) (shadow_client : Option ℕ)
    (request : Request S) (run : Run S)
    → shadow.serves ≡ false
    → shown (
        report request run
          (asked (unless read_only (some shadow)) (unless read_only shadow_client) request))
      ≡ shown (
          report request run
            (asked (unless read_only none) (unless read_only shadow_client) request))
shown-report true shadow shadow_client request run h = refl
shown-report false shadow none request run h = refl
shown-report false shadow (some client) request run h = ground (arith, h)

-- A shadow reranker that is not set to serve never changes what a search serves or logs.
pub search_with_status-shadow :
    {S : Type 0} (f : Floats S) (n : Numbers S) (engine : Engine S) (waits : Waits)
    (read_only : Bool) (shadow : Shadow S) (shadow_client : Option ℕ) (request : Request S)
    → shadow.serves ≡ false
    → Option.map shown
        (search_with_status f n engine waits read_only (some shadow) shadow_client request)
      ≡ Option.map shown (search_with_status f n engine waits read_only none shadow_client request)
unfolding search_with_status
search_with_status-shadow f n engine waits read_only shadow shadow_client request h =
    let once : Request _ = record request { log_client = unless read_only request.log_client } in
    elim (Option-cases (retrieve_and_rank f n engine waits once)) [
      | inl e ↦ rw e refl
      | inr (run, e) ↦ rw e (ap some (shown-report read_only shadow shadow_client once run h))
    ]
