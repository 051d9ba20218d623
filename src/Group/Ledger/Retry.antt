-- ===== src/Group/Ledger/Retry.antt =====
-- server/src/do/group/ledger.ts, `putEntry`: a request that arrives twice.
use opensplit.Prelude.{
  ℕ, ◌+◌, ◌≡◌, refl, ◌∙◌, Bool, true, false, not, ◌||◌, Option, none, some, List, [], ◌∷◌, ◌++◌,
  inl, inr, same, same-eq, same_refl, case_of, ◌==◌, Bool-cases,
}
use opensplit.Group.Schema.{Entry, EntryInput, EntryRow, MoneyRow, Share, Comparable-discrete}
use opensplit.Group.Tables.{Db}
use opensplit.Group.Action.{
  Action, Outcome, done, pure, modify, gets, ◌>>=◌, ◌>>◌, continue, refuse_if, or_refuse,
}
use opensplit.Group.Action.Keeps.{
  Guards, After, After-guard, After-modify, Guards-bind, Guards-refuse_if, Guards-check,
}
use opensplit.Group.Frame.Ledger.{Guards-check_entry, Guards-check_payers}
use opensplit.Group.Refusal.{RefusalCode}
use opensplit.Group.Action.Returns.{Returns, Returns-passed, Returns-bind}
use opensplit.Group.Store.{current_seq, WriteContext, next_seq, find_member}
use opensplit.Group.Entries.{
  read_entry, require_entry, sum_payers, sum_shares, assert_balanced, assert_settlement,
  assert_members_exist, repeats, payer_ids, share_ids, all_known, comparable_entry,
  comparable_input,
}
use opensplit.Group.Frame.{with_entry}
use opensplit.Group.Events.{Written, append_snapshot}
use opensplit.Group.Departed.{assert_departed_only_settle}
use opensplit.Group.Ledger.{
  put_entry, put_new_version, unchanged, write_entry, write_rows, assert_edit,
  assert_base_is_current, new_row,
}
use opensplit.Group.Ledger.Stored.{SameBooks, read_back, read_entry-books, append_snapshot-books}

-- The checks of an input that look at it alone, and those that look at who it names.
pub record Accepted (input : EntryInput) (s : Db) : Type 0 where
  pub sums :
      (not (sum_payers input.payers == input.amount_minor)
        || not (sum_shares input.shares == input.amount_minor))
      ≡ false
  pub payers : repeats (payer_ids input.payers) ≡ false
  pub shares : repeats (share_ids input.shares) ≡ false
  pub known : all_known s (payer_ids input.payers ++ share_ids input.shares) ≡ true

-- The expense is stored, and compares as the input.
pub record Recorded (id : ℕ) (input : EntryInput) (e : Entry) (s : Db) : Type 0 where
  pub accepted : Accepted input s
  pub found : read_entry s id ≡ some e
  pub compares : comparable_entry e ≡ comparable_input input

put_entry-Recorded :
    (id : ℕ) (input : EntryInput) (c : WriteContext) (e : Entry) (s : Db)
    → Recorded id input e s
    → put_entry id input c s ≡ done e s
unfolding put_entry assert_balanced assert_members_exist unchanged refuse_if ◌>>=◌
put_entry-Recorded id input c e s r =
    rw
      (
        r.accepted.sums,
        continue,
        r.accepted.payers,
        continue,
        r.accepted.shares,
        continue,
        r.accepted.known,
        continue,
        r.found,
        r.compares,
        same_refl Comparable-discrete (comparable_input input),
      )
      refl

module _ {B : Type 0} (Q : B → Db → Type 0) (s : Db) where
  -- An action that only tests comes before the rest of the block.
  pub Returns-guard :
      (m : Action Unit) (k : Unit → Action B)
      → Guards m
      → Returns Q (k tt s)
      → Returns Q ((m >>= k) s)
  unfolding ◌>>=◌
  Returns-guard m k g h = elim (g.at s) [
    | inl e ↦ rw (e, continue) h
    | inr (x, e) ↦ rw (e, continue) tt
  ]

pub Returns-read :
    {A B : Type 0} (Q : B → Db → Type 0) (s : Db) (f : Db → A) (k : A → Action B)
    → Returns Q (k (f s) s)
    → Returns Q ((gets f >>= k) s)
unfolding gets ◌>>=◌
Returns-read Q s f k h = h

pub After-Returns :
    {A : Type 0} (P Q : Db → Type 0) (o : Outcome A)
    → After P o
    → ((t : Db) → P t → Q t)
    → Returns (λ _ t. Q t) o
After-Returns P Q (done a t) h f = f t h
After-Returns P Q (Outcome.thrown e) h f = tt

pub Returns-weaken :
    {A : Type 0} (P Q : A → Db → Type 0) (o : Outcome A)
    → Returns P o
    → ((a : A) (t : Db) → P a t → Q a t)
    → Returns Q o
Returns-weaken P Q (done a t) h f = f a t h
Returns-weaken P Q (Outcome.thrown e) h f = tt

pub Guards-assert_edit :
    (stored : Option Entry) (input : EntryInput) → Guards (assert_edit stored input)
unfolding assert_edit assert_base_is_current pure
Guards-assert_edit none input = record { at = λ s. inl refl }
Guards-assert_edit (some e) input = search (Guards-bind, Guards-refuse_if) depth 20

Guards-departed :
    (stored : Option Entry) (input : EntryInput) → Guards (assert_departed_only_settle stored input)
unfolding assert_departed_only_settle ◌>>=◌ gets
Guards-departed stored input = record { at = λ s. (Guards-refuse_if _ _).at s }

pub refuse_unless-Returns :
    (Q : Unit → Db → Type 0) (b : Bool) (code : RefusalCode) (s : Db)
    → (b ≡ true → Q tt s)
    → Returns Q (refuse_if (not b) code s)
unfolding refuse_if
refuse_unless-Returns Q true code s h = h refl
refuse_unless-Returns Q false code s h = tt

all_known-members :
    (s t : Db) (ids : List ℕ) → t.members ≡ s.members → all_known t ids ≡ all_known s ids
unfolding all_known find_member
all_known-members s t [] h = refl
all_known-members s t (x ∷ ids) h = rw (h, all_known-members s t ids h)

-- What the look at the members has found, on the database that it leaves as it was.
pub record Known (input : EntryInput) (s t : Db) : Type 0 where
  pub same_db : t ≡ s
  payers : repeats (payer_ids input.payers) ≡ false
  shares : repeats (share_ids input.shares) ≡ false
  known : all_known s (payer_ids input.payers ++ share_ids input.shares) ≡ true

pub assert_members_exist-Known :
    (input : EntryInput) (s : Db) → Returns (λ _ t. Known input s t) (assert_members_exist input s)
unfolding assert_members_exist gets ◌>>=◌
assert_members_exist-Known input s =
    Returns-passed (λ _ t. Known input s t) s _ _ _
      λ payers.
        Returns-passed (λ _ t. Known input s t) s _ _ _
          λ shares.
            refuse_unless-Returns (λ _ t. Known input s t) _ _ s
              λ known. record { same_db = refl; payers = payers; shares = shares; known = known }

same_members-Accepted :
    (input : EntryInput) (s t : Db) → t.members ≡ s.members → Accepted input s → Accepted input t
same_members-Accepted input s t h a = record {
  sums = a.sums;
  payers = a.payers;
  shares = a.shares;
  known = all_known-members s t _ h ∙ a.known;
}

pub write_rows-wrote :
    (row : EntryRow) (payers : List MoneyRow) (shares : List Share) (s : Db)
    → After (λ t. t ≡ with_entry row payers shares s) (write_rows row payers shares s)
unfolding write_rows modify
write_rows-wrote row payers shares s =
    let P : Db → Type 0 = λ t. t ≡ with_entry row payers shares s in
    After-guard P _ _ s (Guards-check_entry row) (
      After-modify P _ _ s (
        After-guard P _ _ _ (Guards-check_payers payers)
          (After-modify P _ _ _ (After-guard P _ _ _ (Guards-check _ _) refl))))

module _ (id : ℕ) (input : EntryInput) where
  abbrev Outcomes : Entry → Db → Type 0
  Outcomes = Recorded id input

  -- Reading back and recording the activity, after the three tables are written.
  finish-Recorded :
      (s : Db) (stored : Option Entry) (c : WriteContext) (seq : ℕ) (w : Written)
      → Accepted input s
      → Returns Outcomes (
          (do
            entry ← require_entry id
            append_snapshot entry.row entry.payers entry.shares w
            pure entry)
            (with_entry (new_row id stored input c seq) input.payers input.shares s))
  unfolding require_entry pure ◌>>=◌ or_refuse
  finish-Recorded s stored c seq w a =
      let back = read_back s id stored input c seq in
      let here = with_entry (new_row id stored input c seq) input.payers input.shares s in
      let e : Entry = back.0 in
      rw (back.1.0, continue)
        (Returns-bind Outcomes here (append_snapshot e.row e.payers e.shares w) (λ _ t. done e t)
          (After-Returns (SameBooks here) (λ t. Recorded id input e t) _
            ((append_snapshot-books e.row e.payers e.shares w).at here)
            λ t same_rows. record {
              accepted = same_members-Accepted input s t same_rows.members a;
              found = read_entry-books here t id same_rows ∙ back.1.0;
              compares = back.1.1;
            }))

  write_entry-Recorded :
      (s : Db) (stored : Option Entry) (c : WriteContext)
      → Accepted input s
      → Returns Outcomes (write_entry id stored input c s)
  unfolding write_entry write_rows next_seq gets modify pure ◌>>=◌
  write_entry-Recorded s stored c a =
      let seq = current_seq s + 1 in
      let t : Db = record s { counter = some seq } in
      let row = new_row id stored input c seq in
      let w : Written = record { seq = seq; now = c.now; actor_id = some c.actor.id } in
      let done_here = finish-Recorded t stored c seq w (same_members-Accepted input s t refl a) in
      Returns-bind Outcomes t (write_rows row input.payers input.shares) _ (
        After-Returns (λ u. u ≡ with_entry row input.payers input.shares t) _ _
          (write_rows-wrote row input.payers input.shares t) λ u same_db. rw same_db done_here)

  put_new_version-Recorded :
      (s : Db) (stored : Option Entry) (c : WriteContext)
      → Accepted input s
      → Returns Outcomes (put_new_version id stored input c s)
  unfolding put_new_version assert_settlement
  put_new_version-Recorded s stored c a =
      Returns-guard Outcomes s _ _ (Guards-assert_edit stored input) (
        Returns-guard Outcomes s _ _ (Guards-refuse_if _ _) (
          Returns-guard Outcomes s _ _ (Guards-departed stored input)
            (write_entry-Recorded s stored c a)))

  put_or_found-Recorded :
      (s : Db) (stored : Option Entry) (c : WriteContext)
      → read_entry s id ≡ stored
      → Accepted input s
      → Returns Outcomes
          (case_of (unchanged stored input) (put_new_version id stored input c) pure s)
  unfolding unchanged pure
  put_or_found-Recorded s none c found a = put_new_version-Recorded s none c a
  put_or_found-Recorded s (some e) c found a =
      elim (Bool-cases (same Comparable-discrete (comparable_entry e) (comparable_input input))) [
        | inl hit ↦
            rw (hit, case_of)
              (record {
                accepted = a;
                found = found;
                compares = same-eq Comparable-discrete _ _ hit;
              })
        | inr miss ↦ rw (miss, case_of) (put_new_version-Recorded s (some e) c a)
      ]

  put_entry-Returns : (c : WriteContext) (s : Db) → Returns Outcomes (put_entry id input c s)
  unfolding put_entry assert_balanced
  put_entry-Returns c s = Returns-passed Outcomes s _ _ _ λ sums.
      Returns-bind Outcomes s (assert_members_exist input) _ (
        Returns-weaken (λ _ t. Known input s t) _ _ (assert_members_exist-Known input s)
          λ _ t k. rw k.same_db (
            Returns-read Outcomes s _ _ (
              put_or_found-Recorded s (read_entry s id) c refl
                (record { sums = sums; payers = k.payers; shares = k.shares; known = k.known }))))

-- A request to save an expense that arrives again is answered as it was and changes nothing: if
-- `putEntry` has returned an entry, then the same input for the same id, on the database it left,
-- returns that entry with the database as it is, whoever asks, whenever, and although the base
-- that the input was composed on is no longer current.
pub put_entry-retry :
    (id : ℕ) (input : EntryInput) (c d : WriteContext) (s t : Db) (e : Entry)
    → put_entry id input c s ≡ done e t
    → put_entry id input d t ≡ done e t
put_entry-retry id input c d s t e h =
    put_entry-Recorded id input d e t (rw h at (put_entry-Returns id input c s))
