-- ===== src/Fx/Immutable.antt =====
-- A rate that is stored is never changed by the methods of server/src/do/fx/index.ts.
use opensplit.Prelude.{
  ℕ, ◌≡◌, refl, Bool, true, false, ◌&&◌, Option, none, some, List, [], ◌∷◌, ◌++◌, find_row, ◌==◌,
  Bool-cases, inl, inr, case_of, if◌then◌else◌,
}
use opensplit.Chunked.{insertable}
use opensplit.Fx.Tables.{
  no_usable_range, Reply, RateRow, FxDb, FxSnapshot, Gap, FxProvider, RunOutcome,
}
use opensplit.Fx.Gaps.{gaps}
use opensplit.Fx.Rates.{
  missing_for, has_rate, insert_rates, insert_chunks, rate_rows, store, publish, record_health,
}
use opensplit.Fx.Runs.{
  FxCall, refreshes, backfills, fills_history, republishes, republish_all, run_call, run_calls,
  Filling, take_in, ask, fill, waterfall, refresh, backfill, store_range, fill_gap, fill_gaps,
  fill_history, failure_in, published_run, snapshot_in, put_request, wanted_on, is_empty,
}

-- The rate of a currency on a day.
abbrev pub rate_at : ℕ → ℕ → List RateRow → Option RateRow
rate_at day currency rows = find_row (λ r. r.as_of == day && r.currency == currency) rows

-- Every rate of the first rows is the same in the second.
pub record KeepsRates (held after : List RateRow) : Type 0 where
  pub at :
      (day currency : ℕ) (row : RateRow)
      → rate_at day currency held ≡ some row
      → rate_at day currency after ≡ some row

same_rates : (rows : List RateRow) → KeepsRates rows rows
same_rates rows = record { at = λ day currency row h. h }

in_turn : (a b c : List RateRow) → KeepsRates a b → KeepsRates b c → KeepsRates a c
in_turn a b c p q = record {
  at = λ day currency row h. q.at day currency row (p.at day currency row h);
}

rate_at-append :
    (day currency : ℕ) (held more : List RateRow) (row : RateRow)
    → rate_at day currency held ≡ some row
    → rate_at day currency (held ++ more) ≡ some row
rate_at-append day currency [] more row h = cc
rate_at-append day currency (x ∷ held) more row h =
    elim (Bool-cases (x.as_of == day && x.currency == currency)) [
      | inl hit ↦ rw hit (rw hit at h)
      | inr miss ↦ rw miss (rate_at-append day currency held more row (rw miss at h))
    ]

one_more :
    (b : Bool) (r : RateRow) (held : List RateRow)
    → KeepsRates held (if b then held else held ++ r ∷ [])
one_more true r held = same_rates held
one_more false r held = record {
  at = λ day currency row h. rate_at-append day currency held _ row h;
}

insert_rates-KeepsRates :
    (rows held : List RateRow) → KeepsRates held (insert_rates rows held).rates
unfolding insert_rates
insert_rates-KeepsRates [] held = same_rates held
insert_rates-KeepsRates (r ∷ rs) held =
    in_turn held _ _ (one_more (has_rate r.as_of r.currency held) r held)
      (insert_rates-KeepsRates rs _)

insert_chunks-KeepsRates :
    (chunks : List (List RateRow)) (held : List RateRow)
    → KeepsRates held (insert_chunks chunks held).rates
unfolding insert_chunks
insert_chunks-KeepsRates [] held = same_rates held
insert_chunks-KeepsRates (c ∷ cs) held =
    in_turn held _ _ (insert_rates-KeepsRates c held) (insert_chunks-KeepsRates cs _)

store-KeepsRates :
    (snapshot : FxSnapshot) (source now : ℕ) (held : List RateRow)
    → KeepsRates held (store snapshot source now held).rates
unfolding store
store-KeepsRates snapshot source now held =
    insert_chunks-KeepsRates (insertable 5 (rate_rows snapshot source now)) held

module _ (month_of : ℕ → ℕ) where
  publish-rates : (months : List ℕ) (db : FxDb) → (publish month_of months db).rates ≡ db.rates
  unfolding publish
  publish-rates [] db = refl
  publish-rates (m ∷ months) db = publish-rates months _

  take_in-KeepsRates :
      (provider : FxProvider) (now : ℕ) (snapshot : FxSnapshot) (f : Filling)
      → KeepsRates f.db.rates (take_in month_of provider now snapshot f).db.rates
  unfolding take_in
  take_in-KeepsRates provider now snapshot f = store-KeepsRates _ _ _ _

  ask-KeepsRates :
      (provider : FxProvider) (as_of : Option ℕ) (now : ℕ) (f : Filling)
      → KeepsRates f.db.rates (ask month_of provider as_of now f).db.rates
  unfolding ask record_health
  ask-KeepsRates provider as_of now f =
      go (snapshot_in (provider.fetch as_of f.outstanding)) _ (same_rates _)
    where
      go :
          (o : Option FxSnapshot) (asked : Filling)
          → KeepsRates f.db.rates asked.db.rates
          → KeepsRates f.db.rates
              (case_of o asked (λ s. take_in month_of provider now s asked)).db.rates
      go none asked k = k
      go (some s) asked k = in_turn _ _ _ k (take_in-KeepsRates provider now s asked)

  either :
      (b : Bool) (f g : Filling)
      → KeepsRates f.db.rates g.db.rates
      → KeepsRates f.db.rates (if b then f else g).db.rates
  either true f g k = same_rates _
  either false f g k = k

  fill-KeepsRates :
      (providers : List FxProvider) (as_of : Option ℕ) (now : ℕ) (f : Filling)
      → KeepsRates f.db.rates (fill month_of providers as_of now f).db.rates
  unfolding fill
  fill-KeepsRates [] as_of now f = same_rates _
  fill-KeepsRates (p ∷ ps) as_of now f =
      in_turn _ _ _ (either _ f _ (ask-KeepsRates p as_of now f)) (fill-KeepsRates ps as_of now _)

  waterfall-KeepsRates :
      (providers : List FxProvider) (as_of : Option ℕ) (wanted : List ℕ) (now : ℕ) (db : FxDb)
      → KeepsRates db.rates (waterfall month_of providers as_of wanted now db).1.rates
  unfolding waterfall
  waterfall-KeepsRates providers as_of wanted now db = fill-KeepsRates providers as_of now _

  store_range-KeepsRates :
      (name now : ℕ) (snapshots : List FxSnapshot) (f : Filling)
      → KeepsRates f.db.rates (store_range month_of name now snapshots f).db.rates
  unfolding store_range
  store_range-KeepsRates name now [] f = same_rates _
  store_range-KeepsRates name now (s ∷ ss) f =
      in_turn _ _ _ (store-KeepsRates s name now f.db.rates) (store_range-KeepsRates name now ss _)

  fill_gap-KeepsRates :
      (providers : List FxProvider) (supported : List ℕ) (now : ℕ) (gap : Gap) (f : Filling)
      → KeepsRates f.db.rates (fill_gap month_of providers supported now gap f).db.rates
  unfolding fill_gap record_health
  fill_gap-KeepsRates [] supported now gap f = same_rates _
  fill_gap-KeepsRates (p ∷ ps) supported now gap f =
      by_range (λ g. fill_gap-KeepsRates ps supported now gap g) p.fetch_range
    where
      Rest : Type 0
      Rest =
          (g : Filling) → KeepsRates g.db.rates (fill_gap month_of ps supported now gap g).db.rates

      answered :
          Rest
          → (o : Option (List FxSnapshot)) (asked : Filling) → KeepsRates f.db.rates asked.db.rates
          → KeepsRates f.db.rates
              (case_of o
                (fill_gap month_of ps supported now gap asked)
                (λ ss. store_range month_of p.name now ss asked)).db.rates
      answered rest none asked k = in_turn _ _ _ k (rest asked)
      answered rest (some ss) asked k = in_turn _ _ _ k (store_range-KeepsRates p.name now ss asked)

      by_range :
          Rest
          → (o : Option (Gap → List ℕ → Reply (List FxSnapshot)))
          → KeepsRates f.db.rates
              (case_of o (fill_gap month_of ps supported now gap f) λ fetch_range.
                let reply = fetch_range gap supported in
                let asked : Filling = record f {
                  db = record_health p.name now (failure_in no_usable_range reply) f.db;
                } in
                case_of
                  (snapshot_in reply)
                  (fill_gap month_of ps supported now gap asked)
                  λ ss. store_range month_of p.name now ss asked).db.rates
      by_range rest none = rest f
      by_range rest (some fetch_range) =
          answered rest (snapshot_in (fetch_range gap supported)) _ (same_rates _)

  fill_gaps-KeepsRates :
      (providers : List FxProvider) (supported : List ℕ) (now : ℕ) (found : List Gap) (f : Filling)
      → KeepsRates f.db.rates (fill_gaps month_of providers supported now found f).db.rates
  unfolding fill_gaps
  fill_gaps-KeepsRates providers supported now [] f = same_rates _
  fill_gaps-KeepsRates providers supported now (g ∷ rest) f =
      in_turn _ _ _ (fill_gap-KeepsRates providers supported now g f)
        (fill_gaps-KeepsRates providers supported now rest _)

  published_run-KeepsRates :
      (held : List RateRow) (run : RunOutcome × FxDb)
      → KeepsRates held run.1.rates
      → KeepsRates held (published_run month_of run).1.rates
  published_run-KeepsRates held (outcome, db) k = rw (publish-rates outcome.months db) k

  refresh-KeepsRates :
      (providers : List FxProvider) (supported : List ℕ) (as_of : Option ℕ) (now : ℕ) (db : FxDb)
      → KeepsRates db.rates (refresh month_of providers supported as_of now db).1.rates
  unfolding refresh
  refresh-KeepsRates providers supported as_of now db =
      elim (Bool-cases (is_empty (wanted_on month_of supported as_of db))) [
        | inl e ↦ rw e (same_rates _)
        | inr e ↦ rw e (
            published_run-KeepsRates db.rates
              (waterfall month_of providers as_of (wanted_on month_of supported as_of db) now db)
              (waterfall-KeepsRates providers as_of _ now db))
      ]

  fill_history-KeepsRates :
      (providers : List FxProvider) (supported : List ℕ) (now : ℕ) (db : FxDb)
      → KeepsRates db.rates (fill_history month_of providers supported now db).1.rates
  unfolding fill_history
  fill_history-KeepsRates providers supported now db =
      let start : Filling = record { db = db; outstanding = []; months = []; stored = 0 } in
      rw publish-rates (fill_gaps-KeepsRates providers supported now (gaps now db) start)

  taken_up :
      (b : Bool) (db : FxDb) (other : Bool × FxDb)
      → KeepsRates db.rates other.1.rates
      → KeepsRates db.rates (if◌then◌else◌ {A = Bool × FxDb} b (false, db) other).1.rates
  taken_up true db other k = same_rates _
  taken_up false db other k = k

  backfill-KeepsRates :
      (providers : List FxProvider) (supported : List ℕ) (day currency now : ℕ) (db : FxDb)
      → KeepsRates db.rates (backfill month_of providers supported day currency now db).1.rates
  unfolding backfill
  backfill-KeepsRates providers supported day currency now db =
      let taken : FxDb = record db { requests = put_request month_of day now db.requests } in
      let missing = missing_for supported day db in
      taken_up _ db _ (
        published_run-KeepsRates db.rates
          (waterfall month_of providers (some day) missing now taken)
          (waterfall-KeepsRates providers (some day) missing now taken))

  run_call-KeepsRates :
      (supported : List ℕ) (call : FxCall) (db : FxDb)
      → KeepsRates db.rates (run_call month_of supported call db).rates
  unfolding run_call republish_all
  run_call-KeepsRates supported (refreshes providers as_of now) db =
      refresh-KeepsRates providers supported as_of now db
  run_call-KeepsRates supported (backfills providers day currency now) db =
      backfill-KeepsRates providers supported day currency now db
  run_call-KeepsRates supported (fills_history providers now) db =
      fill_history-KeepsRates providers supported now db
  run_call-KeepsRates supported republishes db = rw publish-rates (same_rates _)

  -- A rate once stored is never changed. Whatever daily runs, backfills, fillings of the history
  -- and republications follow, with whatever answers of the providers, the row found for a day and
  -- a currency is the row that was found for them before.
  pub rate_never_changes :
      (supported : List ℕ) (calls : List FxCall) (db : FxDb) (day currency : ℕ) (row : RateRow)
      → rate_at day currency db.rates ≡ some row
      → rate_at day currency (run_calls month_of supported calls db).rates ≡ some row
  unfolding run_calls
  rate_never_changes supported [] db day currency row h = h
  rate_never_changes supported (call ∷ calls) db day currency row h =
      rate_never_changes supported calls (run_call month_of supported call db) day currency row
        ((run_call-KeepsRates supported call db).at day currency row h)
