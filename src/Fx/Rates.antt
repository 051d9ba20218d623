-- ===== src/Fx/Rates.antt =====
-- server/src/do/fx/index.ts, the tables of the object: storing a day's rates, what is missing on a
-- day, the health of a provider, publishing a month.
use opensplit.Prelude.{
  ℕ, ◌-◌, ◌/◌, Bool, ◌&&◌, not, Option, none, some, List, [], ◌∷◌, ◌++◌, map, leb, ◌==◌, any_row,
  rows_where, sort_by, if◌then◌else◌,
}
use opensplit.Chunked.{insertable}
use opensplit.Fx.Tables.{FxRate, RateRow, Failure, HealthRow, MonthBlob, FxDb, FxSnapshot}

abbrev pub history_days : ℕ
history_days = 365

-- How old a rate may be and still answer for a day.
abbrev pub stale_after_days : ℕ
stale_after_days = 7

-- `isoDay`: the day of an instant in milliseconds.
abbrev pub iso_day : ℕ → ℕ
iso_day at = at / 86400000

-- Whether a day and a currency have a rate: the primary key.
unfoldable pub has_rate : ℕ → ℕ → List RateRow → Bool
has_rate day currency rows = any_row (λ r. r.as_of == day && r.currency == currency) rows

pub record Stored : Type 0 where
  pub rates : List RateRow
  pub written : List ℕ

-- `insert … on conflict do nothing returning currency`, one statement.
unfoldable pub insert_rates : List RateRow → List RateRow → Stored
unfolding has_rate
insert_rates [] held = record { rates = held; written = [] }
insert_rates (r ∷ rs) held =
    let known = has_rate r.as_of r.currency held in
    let rest = insert_rates rs (if known then held else held ++ r ∷ []) in
    record {
      rates = rest.rates;
      written = if known then rest.written else r.currency ∷ rest.written;
    }

unfoldable pub insert_chunks : List (List RateRow) → List RateRow → Stored
unfolding insert_rates
insert_chunks [] held = record { rates = held; written = [] }
insert_chunks (chunk ∷ chunks) held =
    let first = insert_rates chunk held in
    let rest = insert_chunks chunks first.rates in
    record { rates = rest.rates; written = first.written ++ rest.written }

unfoldable pub rate_rows : FxSnapshot → ℕ → ℕ → List RateRow
rate_rows snapshot source now =
    map
      (λ p. record {
        as_of = snapshot.as_of;
        currency = p.0;
        rate = p.1;
        source = source;
        created_at = now;
      })
      snapshot.rates

-- `store`: one day's rates, in pieces of rows with five columns each.
unfoldable pub store : FxSnapshot → ℕ → ℕ → List RateRow → Stored
unfolding rate_rows insert_chunks
store snapshot source now held = insert_chunks (insertable 5 (rate_rows snapshot source now)) held

abbrev pub in_list : ℕ → List ℕ → Bool
in_list x xs = any_row (λ y. y == x) xs

-- Whether a rate answers for a day: published on it or in the week before.
unfoldable pub answers : ℕ → ℕ → List RateRow → Bool
answers day currency rows =
    any_row
      (λ r. r.currency == currency && (leb (day - stale_after_days) r.as_of && leb r.as_of day))
      rows

-- `missingFor`, of the currencies that are supported.
unfoldable pub missing_for : List ℕ → ℕ → FxDb → List ℕ
unfolding answers
missing_for supported day db = rows_where (λ c. not (answers day c db.rates)) supported

abbrev success_of : ℕ → Option Failure → Option ℕ → Option ℕ
success_of at none before = some at
success_of at (some failure) before = before

-- A failure keeps the last success.
unfoldable pub put_health : ℕ → ℕ → Option Failure → List HealthRow → List HealthRow
put_health name at failure [] =
    record {
      name = name;
      last_attempt_at = at;
      last_success_at = success_of at failure none;
      last_error = failure;
    }
    ∷ []
put_health name at failure (h ∷ hs) =
    let rest = put_health name at failure hs in
    if h.name == name
    then record h {
      last_attempt_at = at;
      last_success_at = success_of at failure h.last_success_at;
      last_error = failure;
    }
      ∷ hs
    else h ∷ rest

unfoldable pub record_health : ℕ → ℕ → Option Failure → FxDb → FxDb
unfolding put_health
record_health name now failure db = record db { health = put_health name now failure db.health }

-- The value of a key is replaced whole.
unfoldable pub put_blob : MonthBlob → List MonthBlob → List MonthBlob
put_blob blob [] = blob ∷ []
put_blob blob (b ∷ bs) =
    let rest = put_blob blob bs in if b.month == blob.month then blob ∷ bs else b ∷ rest

abbrev rate_columns : RateRow → FxRate
rate_columns r = record { as_of = r.as_of; currency = r.currency; rate = r.rate; source = r.source }

-- `order by as_of, currency`
unfoldable pub ordered : List RateRow → List FxRate
ordered rows =
    map rate_columns
      (sort_by (λ (r : RateRow). r.as_of) (sort_by (λ (r : RateRow). r.currency) rows))

-- The calendar month of a day, the first seven letters of its date.
module _ (month_of : ℕ → ℕ) where
  unfoldable pub month_blob : ℕ → List RateRow → MonthBlob
  unfolding ordered
  month_blob month rows = record {
    month = month;
    rates = ordered (rows_where (λ r. month_of r.as_of == month) rows);
  }

  -- `publish`: each month rewritten whole from the rows held.
  unfoldable pub publish : List ℕ → FxDb → FxDb
  unfolding month_blob put_blob
  publish [] db = db
  publish (month ∷ months) db =
      publish months (record db { cache = put_blob (month_blob month db.rates) db.cache })
