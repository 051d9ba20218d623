-- ===== src/Fx/Gaps.antt =====
-- server/src/do/fx/index.ts, `gaps`: the stretches of the last year without a publication.
pub mod Covered
use opensplit.Prelude.{
  ℕ, ◌+◌, ◌-◌, ltb, leb, ◌&&◌, ◌==◌, List, [], ◌∷◌, ◌++◌, map, not, rows_where, sort_by,
  if◌then◌else◌,
}
use opensplit.Fx.Tables.{RateRow, Gap, FxDb}
use opensplit.Fx.Rates.{history_days, stale_after_days, iso_day}

-- `select distinct`, and a `Set` of what is listed: each once, the first of it kept.
unfoldable pub distinct : List ℕ → List ℕ
distinct [] = []
distinct (x ∷ xs) = x ∷ rows_where (λ y. not (y == x)) (distinct xs)

-- The days with a publication, between two days, in order.
unfoldable pub published : ℕ → ℕ → List RateRow → List ℕ
unfolding distinct
published floor today rows =
    sort_by (λ d. d)
      (distinct
        (map (λ r. r.as_of) (rows_where (λ r. leb floor r.as_of && leb r.as_of today) rows)))

-- The loop: each publication against the one before it. The days ascend, so the difference is the
-- number of days between.
unfoldable pub gaps_after : ℕ → List ℕ → List Gap
gaps_after before [] = []
gaps_after before (after ∷ days) =
    let rest = gaps_after after days in
    if ltb (stale_after_days + 1) (after - before)
    then record { first = before + 1; last = after - 1 } ∷ rest
    else rest

unfoldable pub gaps : ℕ → FxDb → List Gap
unfolding published gaps_after
gaps now db =
    let today = iso_day now in
    let floor = today - history_days in
    gaps_after (floor - 1) (published floor today db.rates ++ (today + 1) ∷ [])
