-- ===== src/Fx/Tables.antt =====
-- server/src/db/fx/schema.ts and the provider interface of server/src/fx/providers.ts. A day is its
-- number, a rate and a name are natural numbers since they are only stored and compared.
use opensplit.Prelude.{ℕ, Bool, Option, List}

-- The rate of a currency on a day: its key is the day and the currency.
pub record RateRow : Type 0 where
  pub as_of : ℕ
  pub currency : ℕ
  pub rate : ℕ
  pub source : ℕ
  pub created_at : ℕ

-- Why a provider gave nothing: it said so, or it threw something.
pub data Failure : Type 0 where
  no_usable_response no_usable_range : Failure
  thrown : ℕ → Failure

pub record HealthRow : Type 0 where
  pub name : ℕ
  pub last_attempt_at : ℕ
  pub last_success_at : Option ℕ
  pub last_error : Option Failure

pub record BackfillRow : Type 0 where
  pub as_of : ℕ
  pub attempted_at : ℕ
  pub attempts : ℕ

-- A rate as it is published: all but when it was stored.
pub record FxRate : Type 0 where
  pub as_of : ℕ
  pub currency : ℕ
  pub rate : ℕ
  pub source : ℕ

-- One month as it is published.
pub record MonthBlob : Type 0 where
  pub month : ℕ
  pub rates : List FxRate

-- The object's tables, and what it has put into the key-value store.
pub record FxDb : Type 0 where
  pub rates : List RateRow
  pub health : List HealthRow
  pub requests : List BackfillRow
  pub cache : List MonthBlob

-- One day's rates, by currency; each code is there once.
pub record FxSnapshot : Type 0 where
  pub as_of : ℕ
  pub rates : List (ℕ × ℕ)

-- A run of days, both ends included.
pub record Gap : Type 0 where
  pub first : ℕ
  pub last : ℕ

-- What asking a provider comes to.
pub data Reply (A : Type 0) : Type 0 where
  usable : A → Reply A
  unusable : Reply A
  throws : ℕ → Reply A

-- The providers are called over the network, so how each answers is a parameter.
pub record FxProvider : Type 0 where
  pub name : ℕ
  pub supports_history : Bool
  pub fetch : Option ℕ → List ℕ → Reply FxSnapshot
  pub fetch_range : Option (Gap → List ℕ → Reply (List FxSnapshot))

pub record RunOutcome : Type 0 where
  pub stored : ℕ
  pub covered : List ℕ
  pub missing : List ℕ
  pub months : List ℕ

pub record HistoryOutcome : Type 0 where
  pub gaps : List Gap
  pub stored : ℕ
  pub months : List ℕ
