-- ===== src/Prelude/Text.antt =====
-- Texts as lists of UTF-16 code units, with the two ways of trimming that the server uses.
use opensplit.Prelude.{
  ℕ, ◌≡◌, refl, Bool, true, ◌&&◌, ◌||◌, Option, List, [], ◌∷◌, leb, ◌==◌, if◌then◌else◌, ℕ_discrete,
}

abbrev pub Text : Type 0
Text = List ℕ

pub Text-discrete : Discrete Text
Text-discrete = hlevel ℕ_discrete

pub Option-Text-discrete : Discrete (Option Text)
Option-Text-discrete = hlevel Text-discrete

pub Option-ℕ-discrete : Discrete (Option ℕ)
Option-ℕ-discrete = hlevel ℕ_discrete

-- SQLite's `length(trim(t)) = 0`: its `trim` strips spaces alone.
unfoldable pub is_blank : Text → Bool
is_blank [] = true
is_blank (c ∷ t) = c == 32 && is_blank t

-- JavaScript's white space and line terminators.
unfoldable pub is_space : ℕ → Bool
is_space c =
    (leb 9 c && leb c 13)
    || c == 32
    || c == 160
    || c == 0x1680
    || (leb 0x2000 c && leb c 0x200A)
    || c == 0x2028
    || c == 0x2029
    || c == 0x202F
    || c == 0x205F
    || c == 0x3000
    || c == 0xFEFF

unfoldable pub trim_start : Text → Text
trim_start [] = []
trim_start (c ∷ t) = let rest = trim_start t in if is_space c then rest else c ∷ t

abbrev trim_end_cons : ℕ → Text → Text
trim_end_cons c [] = if is_space c then [] else c ∷ []
trim_end_cons c (d ∷ t) = c ∷ d ∷ t

unfoldable pub trim_end : Text → Text
trim_end [] = []
trim_end (c ∷ t) = trim_end_cons c (trim_end t)

-- `String.prototype.trim`
unfoldable pub trim : Text → Text
unfolding trim_start trim_end is_space
trim t = trim_end (trim_start t)

trim_name : trim (32 ∷ b'A' ∷ 32 ∷ b'b' ∷ 160 ∷ 9 ∷ []) ≡ b'A' ∷ 32 ∷ b'b' ∷ []
unfolding trim
trim_name = refl
