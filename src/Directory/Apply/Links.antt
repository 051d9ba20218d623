-- ===== src/Directory/Apply/Links.antt =====
-- server/src/do/group/index.ts, `apply`, seen through all that the indexes answer: besides the
-- memberships and the purged groups, the group that a link's token leads to.
use opensplit.Prelude.{
  ℕ, ◌≡◌, refl, ap, ◌∙◌, true, false, not, Option, none, some, List, [], ◌∷◌, ◌++◌, any_row,
  find_row, rows_where, ◌==◌, arith, if◌then◌else◌, Bool-cases, inl, inr,
}
use opensplit.Group.Tables.{
  OutboxRow, OutboxPayload, membership, link_token, group_purged, MembershipWrite, LinkTokenWrite,
}
use opensplit.Directory.Tables.{LinkTokenRow, Directory}
use opensplit.Directory.Apply.{
  is_purged, put_link_token, apply_membership, apply_link_token, apply_purge, apply_row,
  apply_payload,
}
use opensplit.Directory.Apply.View.{View, view, step, view-apply_row}

abbrev pub link_at : ℕ → List LinkTokenRow → Option LinkTokenRow
link_at t rows = find_row (λ l. l.token == t) rows

-- No two rows have one token.
abbrev pub TokensOnce : List LinkTokenRow → Type 0
TokensOnce [] = Unit
TokensOnce (l ∷ ls) = (any_row (λ k. k.token == l.token) ls ≡ false) × TokensOnce ls

-- What the indexes answer, links included.
pub record Index : Type 0 where
  pub view : View
  pub link : ℕ → Option LinkTokenRow

unfoldable pub index : Directory → Index
index d = record { view = view d; link = λ t. link_at t d.link_tokens }

-- The link that is there, else a new one.
abbrev pub kept_or : LinkTokenRow → Option LinkTokenRow → Option LinkTokenRow
kept_or new none = some new
kept_or new (some l) = some l

-- A link, unless it leads to a group.
abbrev pub outside : ℕ → Option LinkTokenRow → Option LinkTokenRow
outside g none = none
outside g (some l) = if l.group_id == g then none else some l

abbrev pub link_row : ℕ → LinkTokenWrite → LinkTokenRow
link_row created_at w = record {
  token = w.token;
  group_id = w.group_id;
  kind = w.token_kind;
  created_at = created_at;
}

-- What a staged write does to the links: a token of a group that is not purged leads there unless
-- it leads somewhere already, and a purge ends the links to its group.
abbrev pub step_link : OutboxPayload → ℕ → Index → ℕ → Option LinkTokenRow
step_link (membership w) created_at v t = v.link t
step_link (link_token w) created_at v t =
    if v.view.purged w.group_id
    then v.link t
    else if w.token == t
    then kept_or (link_row created_at w) (v.link t)
    else v.link t
step_link (group_purged w) created_at v t = outside w.group_id (v.link t)

unfoldable pub step_index : OutboxRow → Index → Index
step_index row v = record { view = step row v.view; link = step_link row.payload row.created_at v }

stays_put :
    (t : ℕ) (new : LinkTokenRow) (rows : List LinkTokenRow)
    → any_row (λ l. l.token == new.token) rows ≡ true
    → link_at t rows ≡ (if new.token == t then kept_or new (link_at t rows) else link_at t rows)
stays_put t new [] h = cc
stays_put t new (l ∷ rows) h = ground (arith, stays_put t new rows)

added_last :
    (t : ℕ) (new : LinkTokenRow) (rows : List LinkTokenRow)
    → any_row (λ l. l.token == new.token) rows ≡ false
    → link_at t (rows ++ new ∷ [])
      ≡ (if new.token == t then kept_or new (link_at t rows) else link_at t rows)
added_last t new [] h = ground arith
added_last t new (l ∷ rows) h = ground (arith, added_last t new rows)

link-put_link_token :
    (t : ℕ) (new : LinkTokenRow) (rows : List LinkTokenRow)
    → link_at t (put_link_token new rows)
      ≡ (if new.token == t then kept_or new (link_at t rows) else link_at t rows)
unfolding put_link_token
link-put_link_token t new rows = elim (Bool-cases (any_row (λ l. l.token == new.token) rows)) [
  | inl there ↦ rw there (stays_put t new rows there)
  | inr fresh ↦ rw fresh (added_last t new rows fresh)
]

not_there :
    (t g : ℕ) (rows : List LinkTokenRow)
    → any_row (λ l. l.token == t) rows ≡ false
    → link_at t (rows_where (λ l. not (l.group_id == g)) rows) ≡ none
not_there t g [] h = refl
not_there t g (l ∷ rows) h = ground (arith, not_there t g rows)

link-purge :
    (t g : ℕ) (rows : List LinkTokenRow)
    → TokensOnce rows
    → link_at t (rows_where (λ l. not (l.group_id == g)) rows) ≡ outside g (link_at t rows)
link-purge t g [] o = refl
link-purge t g (l ∷ rows) o = elim (Bool-cases (l.token == t)) [
  | inl hit ↦
      let same : l.token ≡ t = ground arith in
      let alone : any_row (λ k. k.token == t) rows ≡ false = rw same at o.0 in
      ground (arith, not_there t g rows alone)
  | inr miss ↦ ground (arith, link-purge t g rows o.1)
]

any-snoc :
    (t : ℕ) (rows : List LinkTokenRow) (new : LinkTokenRow)
    → any_row (λ k. k.token == t) rows ≡ false
    → (new.token == t) ≡ false
    → any_row (λ k. k.token == t) (rows ++ new ∷ []) ≡ false
any-snoc t [] new h n = ground arith
any-snoc t (l ∷ rows) new h n = ground (arith, any-snoc t rows new)

snoc-TokensOnce :
    (rows : List LinkTokenRow) (new : LinkTokenRow)
    → any_row (λ k. k.token == new.token) rows ≡ false
    → TokensOnce rows
    → TokensOnce (rows ++ new ∷ [])
snoc-TokensOnce [] new h o = (refl, tt)
snoc-TokensOnce (l ∷ rows) new h o =
    (any-snoc l.token rows new o.0 (ground arith), snoc-TokensOnce rows new (ground arith) o.1)

any-rows_where :
    (t g : ℕ) (rows : List LinkTokenRow)
    → any_row (λ k. k.token == t) rows ≡ false
    → any_row (λ k. k.token == t) (rows_where (λ l. not (l.group_id == g)) rows) ≡ false
any-rows_where t g [] h = refl
any-rows_where t g (l ∷ rows) h = ground (arith, any-rows_where t g rows)

purge-TokensOnce :
    (g : ℕ) (rows : List LinkTokenRow)
    → TokensOnce rows
    → TokensOnce (rows_where (λ l. not (l.group_id == g)) rows)
purge-TokensOnce g [] o = tt
purge-TokensOnce g (l ∷ rows) o = elim (Bool-cases (l.group_id == g)) [
  | inl hit ↦ rw hit (purge-TokensOnce g rows o.1)
  | inr miss ↦ rw miss (any-rows_where l.token g rows o.0, purge-TokensOnce g rows o.1)
]

put_link_token-TokensOnce :
    (new : LinkTokenRow) (rows : List LinkTokenRow)
    → TokensOnce rows
    → TokensOnce (put_link_token new rows)
unfolding put_link_token
put_link_token-TokensOnce new rows o =
    elim (Bool-cases (any_row (λ l. l.token == new.token) rows)) [
      | inl there ↦ rw there o
      | inr fresh ↦ rw fresh (snoc-TokensOnce rows new fresh o)
    ]

links-apply_membership :
    (id : ℕ) (w : MembershipWrite) (d : Directory)
    → (apply_membership id w d).link_tokens ≡ d.link_tokens
unfolding apply_membership
links-apply_membership id w d = ground arith

links-apply_link_token :
    (created_at : ℕ) (w : LinkTokenWrite) (d : Directory)
    → (apply_link_token created_at w d).link_tokens ≡ (
        if is_purged w.group_id d
        then d.link_tokens
        else put_link_token (link_row created_at w) d.link_tokens)
unfolding apply_link_token
links-apply_link_token created_at w d = ground arith

module _ (row : OutboxRow) (d : Directory) (once : TokensOnce d.link_tokens) where
  link-apply_payload :
      (payload : OutboxPayload) (t : ℕ)
      → link_at t (apply_payload payload row.id row.created_at d).link_tokens
        ≡ step_link payload row.created_at (index d) t
  unfolding index view apply_purge
  link-apply_payload (membership w) t = ap (link_at t) (links-apply_membership row.id w d)
  link-apply_payload (link_token w) t =
      ap (link_at t) (links-apply_link_token row.created_at w d)
      ∙ elim (Bool-cases (is_purged w.group_id d)) [
        | inl gone ↦ rw gone refl
        | inr living ↦ rw living (link-put_link_token t (link_row row.created_at w) d.link_tokens)
      ]
  link-apply_payload (group_purged w) t = link-purge t w.group_id d.link_tokens once

  apply_payload-TokensOnce :
      (payload : OutboxPayload)
      → TokensOnce (apply_payload payload row.id row.created_at d).link_tokens
  unfolding apply_purge
  apply_payload-TokensOnce (membership w) = rw (links-apply_membership row.id w d) once
  apply_payload-TokensOnce (link_token w) =
      rw (links-apply_link_token row.created_at w d) (elim (Bool-cases (is_purged w.group_id d)) [
        | inl gone ↦ rw gone once
        | inr living ↦ rw living (put_link_token-TokensOnce _ d.link_tokens once)
      ])
  apply_payload-TokensOnce (group_purged w) = purge-TokensOnce w.group_id d.link_tokens once

index-eq : (v w : Index) → v.view ≡ w.view → ((t : ℕ) → v.link t ≡ w.link t) → v ≡ w
index-eq v w a b i = record { view = a i; link = λ t. b t i }

-- The tables implement the abstract indexes of memberships, purged groups and links. Where tokens
-- are distinct, what the indexes answer after a staged write is what the step on answers says,
-- whatever the write and whatever they held, and tokens are distinct again.
pub index-apply_row :
    (row : OutboxRow) (d : Directory)
    → TokensOnce d.link_tokens
    → (index (apply_row row d) ≡ step_index row (index d))
      × TokensOnce (apply_row row d).link_tokens
unfolding index step_index apply_row
index-apply_row row d once = (
  index-eq _ _ (view-apply_row row d) (link-apply_payload row d once row.payload),
  apply_payload-TokensOnce row d once row.payload,
)
