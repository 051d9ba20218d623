-- ===== src/Chunked.antt =====
-- server/src/chunked.ts: a list in pieces that each fit one SQL statement.
pub mod Pieces
use opensplit.Prelude.{ℕ, zero, suc, ◌/◌, max, List, [], ◌∷◌, take, drop, length}

-- At most this many values are bound in one statement.
abbrev pub max_bound_values : ℕ
max_bound_values = 100

-- The size of a piece where the caller names none.
abbrev pub default_size : ℕ
default_size = 90

-- The loop over `start`: each round takes one slice. The rounds are bounded by the length, which
-- is enough for a positive `size`.
unfoldable pub chunks_from {ℓ} : {A : Type ℓ} → ℕ → ℕ → List A → List (List A)
chunks_from zero size items = []
chunks_from (suc rounds) size [] = []
chunks_from (suc rounds) size (x ∷ items) =
    take size (x ∷ items) ∷ chunks_from rounds size (drop size (x ∷ items))

unfoldable pub chunked {ℓ} : {A : Type ℓ} → List A → ℕ → List (List A)
unfolding chunks_from
chunked items size = chunks_from (length items) size items

-- Rows of `columns` values each, in pieces that each fit one statement.
unfoldable pub insertable {ℓ} : {A : Type ℓ} → ℕ → List A → List (List A)
unfolding chunked
insertable columns rows = chunked rows (max_bound_values / max 1 columns)
