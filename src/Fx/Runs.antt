-- ===== src/Fx/Runs.antt =====
-- server/src/do/fx/index.ts, the methods: the waterfall over the providers, the daily run, the days
-- that devices ask for, the history. Each runs on its own, from the database it finds to the one it
-- leaves; the source lets other calls in while it waits for a provider.
use opensplit.Prelude.{
  ℕ, ◌+◌, ◌*◌, ltb, leb, Bool, true, false, ◌&&◌, ◌||◌, not, Option, none, some, List, [], ◌∷◌,
  ◌++◌, map, length, rows_where, sort_by, find_row, take, is_some, case_of, ◌==◌, if◌then◌else◌,
}
use opensplit.Fx.Tables.{
  FxRate, Failure, no_usable_response, no_usable_range, BackfillRow, FxDb, FxSnapshot, Gap, Reply,
  usable, unusable, throws, FxProvider, RunOutcome, HistoryOutcome,
}
use opensplit.Fx.Rates.{
  iso_day, store, Stored, in_list, missing_for, record_health, ordered, publish,
}
use opensplit.Fx.Gaps.{gaps, distinct}

abbrev pub snapshot_in : {A : Type 0} → Reply A → Option A
snapshot_in (usable a) = some a
snapshot_in _ = none

abbrev pub failure_in : {A : Type 0} → Failure → Reply A → Option Failure
failure_in quiet (usable a) = none
failure_in quiet unusable = some quiet
failure_in quiet (throws cause) = some (Failure.thrown cause)

-- Adds to a set of months, in the order of insertion.
abbrev add_month : ℕ → List ℕ → List ℕ
add_month month months = if in_list month months then months else months ++ month ∷ []

abbrev pub is_empty : {A : Type 0} → List A → Bool
is_empty [] = true
is_empty (_ ∷ _) = false

-- What a waterfall has come to so far.
pub record Filling : Type 0 where
  pub db : FxDb
  pub outstanding : List ℕ
  pub months : List ℕ
  pub stored : ℕ

module _ (month_of : ℕ → ℕ) where
  -- One provider's answer taken in: what is still outstanding of it is stored.
  unfoldable pub take_in : FxProvider → ℕ → FxSnapshot → Filling → Filling
  take_in provider now snapshot f =
      let answered = rows_where (λ p. in_list p.0 f.outstanding) snapshot.rates in
      let kept : Stored =
        store (record { as_of = snapshot.as_of; rates = answered }) provider.name now f.db.rates in
      record {
        db = record f.db { rates = kept.rates };
        outstanding = rows_where (λ c. not (in_list c (map (λ p. p.0) answered))) f.outstanding;
        months =
            if is_empty kept.written
            then f.months
            else add_month (month_of snapshot.as_of) f.months;
        stored = f.stored + length kept.written;
      }

  unfoldable pub ask : FxProvider → Option ℕ → ℕ → Filling → Filling
  unfolding take_in
  ask provider as_of now f =
      let reply = provider.fetch as_of f.outstanding in
      let asked : Filling = record f {
        db = record_health provider.name now (failure_in no_usable_response reply) f.db;
      } in
      case_of (snapshot_in reply) asked (λ snapshot. take_in provider now snapshot asked)

  -- The loop over the providers. One without history is not asked for a past day.
  unfoldable pub fill : List FxProvider → Option ℕ → ℕ → Filling → Filling
  unfolding ask
  fill [] as_of now f = f
  fill (provider ∷ providers) as_of now f = fill providers as_of now (
      if is_empty f.outstanding || (is_some as_of && not provider.supports_history)
      then f
      else ask provider as_of now f)

  unfoldable pub waterfall : List FxProvider → Option ℕ → List ℕ → ℕ → FxDb → RunOutcome × FxDb
  unfolding fill
  waterfall providers as_of wanted now db =
      let f =
        fill providers as_of now
          (record { db = db; outstanding = distinct wanted; months = []; stored = 0 }) in
      (
        record {
          stored = f.stored;
          covered = rows_where (λ c. not (in_list c f.outstanding)) wanted;
          missing = f.outstanding;
          months = f.months;
        },
        f.db,
      )

  abbrev pub wanted_on : List ℕ → Option ℕ → FxDb → List ℕ
  wanted_on supported none db = supported
  wanted_on supported (some day) db = missing_for supported day db

  abbrev pub published_run : RunOutcome × FxDb → RunOutcome × FxDb
  published_run (outcome, db) = (outcome, publish month_of outcome.months db)

  -- The daily run, or a run for one day.
  unfoldable pub refresh : List FxProvider → List ℕ → Option ℕ → ℕ → FxDb → RunOutcome × FxDb
  unfolding waterfall
  refresh providers supported as_of now db =
      let wanted = wanted_on supported as_of db in
      if is_empty wanted
      then (record { stored = 0; covered = []; missing = []; months = [] }, db)
      else published_run (waterfall providers as_of wanted now db)

  abbrev backfill_cooldown : ℕ
  backfill_cooldown = 60 * 60 * 1000

  abbrev backfill_attempts : ℕ
  backfill_attempts = 5

  -- Chased within the hour, or too often.
  unfoldable pub is_throttled : ℕ → Option BackfillRow → Bool
  is_throttled now none = false
  is_throttled now (some previous) =
      leb backfill_attempts previous.attempts || ltb now (previous.attempted_at + backfill_cooldown)

  unfoldable pub put_request : ℕ → ℕ → List BackfillRow → List BackfillRow
  put_request day now [] = record { as_of = day; attempted_at = now; attempts = 1 } ∷ []
  put_request day now (r ∷ rs) =
      let rest = put_request day now rs in
      if r.as_of == day
      then record r { attempted_at = now; attempts = r.attempts + 1 } ∷ rs
      else r ∷ rest

  -- Each snapshot of a range stored, and the months that got something new.
  unfoldable pub store_range : ℕ → ℕ → List FxSnapshot → Filling → Filling
  store_range name now [] f = f
  store_range name now (snapshot ∷ snapshots) f =
      let kept : Stored = store snapshot name now f.db.rates in
      store_range name now snapshots (record f {
        db = record f.db { rates = kept.rates };
        months =
            if is_empty kept.written
            then f.months
            else add_month (month_of snapshot.as_of) f.months;
        stored = f.stored + length kept.written;
      })

  -- The first provider that can answer for a range and does: the loop breaks there.
  unfoldable pub fill_gap : List FxProvider → List ℕ → ℕ → Gap → Filling → Filling
  unfolding store_range
  fill_gap [] supported now gap f = f
  fill_gap (provider ∷ providers) supported now gap f =
      case_of provider.fetch_range (fill_gap providers supported now gap f) λ fetch_range.
        let reply = fetch_range gap supported in
        let asked : Filling = record f {
          db = record_health provider.name now (failure_in no_usable_range reply) f.db;
        } in
        case_of (snapshot_in reply) (fill_gap providers supported now gap asked)
          λ snapshots. store_range provider.name now snapshots asked

  unfoldable pub fill_gaps : List FxProvider → List ℕ → ℕ → List Gap → Filling → Filling
  unfolding fill_gap
  fill_gaps providers supported now [] f = f
  fill_gaps providers supported now (gap ∷ rest) f =
      fill_gaps providers supported now rest (fill_gap providers supported now gap f)

  -- Every long stretch without a publication, fetched whole.
  unfoldable pub fill_history : List FxProvider → List ℕ → ℕ → FxDb → HistoryOutcome × FxDb
  unfolding fill_gaps
  fill_history providers supported now db =
      let found = gaps now db in
      let f =
        fill_gaps providers supported now found
          (record { db = db; outstanding = []; months = []; stored = 0 }) in
      (
        record { gaps = found; stored = f.stored; months = sort_by (λ m. m) f.months },
        publish month_of f.months f.db,
      )

  -- Every month with a rate, rebuilt.
  unfoldable pub republish_all : FxDb → List ℕ × FxDb
  republish_all db =
      let months = distinct (map (λ r. month_of r.as_of) db.rates) in
      (months, publish month_of months db)

  -- A day that a device asked for, taken up or not.
  unfoldable pub backfill : List FxProvider → List ℕ → ℕ → ℕ → ℕ → FxDb → Bool × FxDb
  unfolding waterfall is_throttled put_request
  backfill providers supported day currency now db =
      let missing = missing_for supported day db in
      let previous = find_row (λ r. r.as_of == day) db.requests in
      if ltb (iso_day now) day || not (in_list currency missing) || is_throttled now previous
      then (false, db)
      else (let taken = record db { requests = put_request day now db.requests } in
          let run = published_run (waterfall providers (some day) missing now taken) in
          (true, run.1))

-- The calls that write, each with the providers as they answer at the time.
pub data FxCall : Type 0 where
  refreshes : List FxProvider → Option ℕ → ℕ → FxCall
  backfills : List FxProvider → ℕ → ℕ → ℕ → FxCall
  fills_history : List FxProvider → ℕ → FxCall
  republishes : FxCall

module _ (month_of : ℕ → ℕ) (supported : List ℕ) where
  unfoldable pub run_call : FxCall → FxDb → FxDb
  run_call (refreshes providers as_of now) db =
      (refresh month_of providers supported as_of now db).1
  run_call (backfills providers day currency now) db =
      (backfill month_of providers supported day currency now db).1
  run_call (fills_history providers now) db = (fill_history month_of providers supported now db).1
  run_call republishes db = (republish_all month_of db).1

  -- One call after another.
  unfoldable pub run_calls : List FxCall → FxDb → FxDb
  unfolding run_call
  run_calls [] db = db
  run_calls (call ∷ calls) db = run_calls calls (run_call call db)

-- Rates on or after a day, straight from storage.
unfoldable pub since : ℕ → ℕ → FxDb → List FxRate
since day limit db = take limit (ordered (rows_where (λ r. leb day r.as_of) db.rates))
