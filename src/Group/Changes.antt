-- ===== src/Group/Changes.antt =====
-- server/src/do/group/changes.ts: one group's changes since a cursor. A page is cut only between
-- sequence numbers, so a write arrives whole.
pub mod Paging
pub mod Pages
use opensplit.Prelude.{
  ℕ, ◌+◌, Bool, true, false, ◌&&◌, Option, none, some, List, [], ◌∷◌, ◌++◌, take, length, map,
  rows_where, sort_by, ltb, leb, ◌==◌, case_of, if◌then◌else◌,
}
use opensplit.Group.Schema.{MemberRow, MetaRow, TombstoneRow, Entry}
use opensplit.Group.Refusal.{no_group, not_member}
use opensplit.Group.Tables.{Db, EventRow}
use opensplit.Group.Action.{Action, pure, gets, or_refuse, refuse_if, ◌>>=◌, ◌>>◌}
use opensplit.Group.Store.{find_member_by_profile}
use opensplit.Group.Entries.{read_entries}
use opensplit.Group.Invites.Peek.{stays}

pub record GroupChanges : Type 0 where
  pub group_id : ℕ
  pub seq : ℕ
  pub has_more : Bool
  pub group : Option MetaRow
  pub members : List MemberRow
  pub entries : List Entry
  pub events : List EventRow
  pub purged_at : Option ℕ

-- A sequence number into an ascending list without repeats: `union` and `order by seq`.
unfoldable pub insert_seq : ℕ → List ℕ → List ℕ
insert_seq n [] = n ∷ []
insert_seq n (m ∷ ms) =
    let rest = m ∷ insert_seq n ms in
    if ltb n m then n ∷ m ∷ ms else if n == m then m ∷ ms else rest

unfoldable pub ascending : List ℕ → List ℕ
unfolding insert_seq
ascending [] = []
ascending (n ∷ ns) = insert_seq n (ascending ns)

abbrev pub meta_seqs : Option MetaRow → List ℕ
meta_seqs none = []
meta_seqs (some m) = m.seq ∷ []

-- Every sequence number that a row of the feed carries.
unfoldable pub stamps : Db → List ℕ
stamps s =
    meta_seqs s.meta
    ++ (map (λ m. m.seq) s.members ++ (map (λ e. e.seq) s.entries ++ map (λ e. e.seq) s.events))

-- The changes after a cursor, one more than a page holds.
unfoldable pub moved_since : Db → ℕ → ℕ → List ℕ
unfolding stamps ascending
moved_since s since limit = take (limit + 1) (ascending (rows_where (ltb since) (stamps s)))

abbrev pub last_or : ℕ → List ℕ → ℕ
last_or d [] = d
last_or d (n ∷ ns) = last_or n ns

abbrev pub in_window : ℕ → ℕ → ℕ → Bool
in_window since up_to n = ltb since n && leb n up_to

-- The page up to a sequence number. The group and the members changed since the cursor ride on
-- every page, even ahead of it.
unfoldable pub page : Db → MetaRow → ℕ → ℕ → Bool → GroupChanges
page s meta since up_to has_more = record {
  group_id = meta.id;
  seq = up_to;
  has_more = has_more;
  group = some meta;
  members = sort_by (λ m. m.seq) (rows_where (λ m. ltb since m.seq) s.members);
  entries =
      read_entries s
        (sort_by (λ e. e.seq) (rows_where (λ e. in_window since up_to e.seq) s.entries));
  events =
      sort_by (λ e. e.seq)
        (sort_by (λ e. e.ordinal) (rows_where (λ e. in_window since up_to e.seq) s.events));
  purged_at = none;
}

abbrev no_changes : MetaRow → ℕ → GroupChanges
no_changes meta since = record {
  group_id = meta.id;
  seq = since;
  has_more = false;
  group = some meta;
  members = [];
  entries = [];
  events = [];
  purged_at = none;
}

-- What a collected group answers to anybody: only that it is gone.
abbrev gone : TombstoneRow → ℕ → GroupChanges
gone grave since = record {
  group_id = grave.group_id;
  seq = grave.seq;
  has_more = false;
  group = none;
  members = [];
  entries = [];
  events = [];
  purged_at = if ltb since grave.seq then some grave.purged_at else none;
}

unfoldable pub page_of_moved : Db → MetaRow → ℕ → ℕ → List ℕ → GroupChanges
unfolding page
page_of_moved s meta since limit [] = no_changes meta since
page_of_moved s meta since limit (n ∷ ns) =
    page s meta since (last_or since (take limit (n ∷ ns))) (ltb limit (length (n ∷ ns)))

unfoldable pub changes_since : ℕ → ℕ → ℕ → Action GroupChanges
unfolding page_of_moved moved_since
changes_since profile since limit = do
  grave ← gets (λ s. s.tombstone)
  let living : Action GroupChanges = do
    found ← gets (λ s. s.meta)
    meta ← or_refuse found no_group
    place ← gets (λ s. find_member_by_profile s profile)
    refuse_if (if stays place then false else true) not_member
    gets (λ s. page_of_moved s meta since limit (moved_since s since limit))
  case_of grave living (λ g. pure (gone g since))
