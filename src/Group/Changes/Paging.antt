-- ===== src/Group/Changes/Paging.antt =====
-- server/src/do/group/changes.ts: what a device that follows the pages has, and that it gets on.
use opensplit.Prelude.{
  ℕ, zero, suc, ◌≤◌, ◌<◌, ◌≡◌, refl, ◌∙◌, sym, ltb, Bool, true, false, List, [], ◌∷◌, ◌++◌, ◌||◌,
  map, some, take, length, any_row, rows_where, ◌==◌, arith, inl, inr, Bool-cases,
}
use opensplit.Group.Schema.{MetaRow, MemberRow, EntryRow}
use opensplit.Group.Tables.{Db, EventRow}
use opensplit.Group.Changes.{
  GroupChanges, insert_seq, ascending, stamps, last_or, meta_seqs, page, page_of_moved,
}

abbrev pub among : ℕ → List ℕ → Bool
among n xs = any_row (λ x. x == n) xs

-- Strictly ascending, above a bound.
abbrev pub Climbs : ℕ → List ℕ → Type 0
Climbs low [] = Unit
Climbs low (x ∷ xs) = (low < x) × Climbs x xs

insert_seq-Climbs :
    (low n : ℕ) (xs : List ℕ) → low < n → Climbs low xs → Climbs low (insert_seq n xs)
unfolding insert_seq
insert_seq-Climbs low n [] h c = (h, tt)
insert_seq-Climbs low n (x ∷ xs) h c = ground (arith, insert_seq-Climbs x n xs)

among-insert_seq :
    (k n : ℕ) (xs : List ℕ) → among k (n ∷ xs) ≡ true → among k (insert_seq n xs) ≡ true
unfolding insert_seq
among-insert_seq k n [] h = h
among-insert_seq k n (x ∷ xs) h = ground (arith, among-insert_seq k n xs)

ascending-Climbs : (since : ℕ) (xs : List ℕ) → Climbs since (ascending (rows_where (ltb since) xs))
unfolding ascending
ascending-Climbs since [] = tt
ascending-Climbs since (x ∷ xs) = elim (Bool-cases (ltb since x)) [
  | inl hit ↦ rw hit (insert_seq-Climbs since x _ (ground arith) (ascending-Climbs since xs))
  | inr miss ↦ rw miss (ascending-Climbs since xs)
]

among-ascending :
    (since k : ℕ) (xs : List ℕ)
    → since < k
    → among k xs ≡ true
    → among k (ascending (rows_where (ltb since) xs)) ≡ true
unfolding ascending
among-ascending since k [] h e = e
among-ascending since k (x ∷ xs) h e = elim (Bool-cases (ltb since x)) [
  | inl hit ↦ rw hit (among-insert_seq k x _ (ground (arith, among-ascending since k xs)))
  | inr miss ↦ rw miss (among-ascending since k xs h (ground arith))
]

take-all : (k : ℕ) (xs : List ℕ) → length xs ≤ k → take k xs ≡ xs
take-all zero [] h = refl
take-all zero (x ∷ xs) h = ground arith
take-all (suc k) [] h = refl
take-all (suc k) (x ∷ xs) h = rw (take-all k xs (omega arith)) refl

last_or-bounds : (low : ℕ) (xs : List ℕ) → Climbs low xs → low ≤ last_or low xs
last_or-bounds low [] c = omega arith
last_or-bounds low (x ∷ xs) c = omega (arith, last_or-bounds x xs c.1)

among-last_or : (low k : ℕ) (xs : List ℕ) → Climbs low xs → among k xs ≡ true → k ≤ last_or low xs
among-last_or low k [] c e = cc
among-last_or low k (x ∷ xs) c e = elim (Bool-cases (x == k)) [
  | inl hit ↦ ground (arith, last_or-bounds x xs c.1)
  | inr miss ↦ among-last_or x k xs c.1 (ground arith)
]

take-Climbs : (k low : ℕ) (xs : List ℕ) → Climbs low xs → Climbs low (take k xs)
take-Climbs zero low xs c = tt
take-Climbs (suc k) low [] c = tt
take-Climbs (suc k) low (x ∷ xs) c = (c.0, take-Climbs k x xs c.1)

take-short : (k : ℕ) (xs : List ℕ) → length (take (suc k) xs) ≤ k → take (suc k) xs ≡ xs
take-short zero [] h = refl
take-short zero (x ∷ xs) h = ground arith
take-short (suc k) [] h = refl
take-short (suc k) (x ∷ xs) h = rw (take-short k xs (omega arith)) refl

not_ltb : (a b : ℕ) → ltb a b ≡ false → b ≤ a
not_ltb a b h = ground arith

moves_on :
    (low limit n : ℕ) (ns : List ℕ)
    → 0 < limit
    → Climbs low (n ∷ ns)
    → low < last_or low (take limit (n ∷ ns))
moves_on low zero n ns h c = ground arith
moves_on low (suc k) n ns h c =
    omega (arith, c.0, last_or-bounds n (take k ns) (take-Climbs k n ns c.1))

-- No row of the feed has a later number: not the group, nor a member, an entry or an event.
pub record NothingAfter (n : ℕ) (s : Db) : Type 0 where
  pub group : (meta : MetaRow) → s.meta ≡ some meta → meta.seq ≤ n
  pub members : any_row (λ m. ltb n m.seq) s.members ≡ false
  pub entries : any_row (λ e. ltb n e.seq) s.entries ≡ false
  pub events : any_row (λ e. ltb n e.seq) s.events ≡ false

-- A page leaves the cursor at or behind it in order; if more is to come it has moved the cursor on,
-- and if nothing is, no row of the feed carries a later number.
pub record Reaches (s : Db) (since : ℕ) (g : GroupChanges) : Type 0 where
  pub forward : since ≤ g.seq
  pub onward : g.has_more ≡ true → since < g.seq
  pub complete : g.has_more ≡ false → NothingAfter g.seq s

among-append : (k : ℕ) (xs ys : List ℕ) → among k (xs ++ ys) ≡ among k xs || among k ys
among-append k [] ys = refl
among-append k (x ∷ xs) ys = ground (arith, among-append k xs ys)

among_left : (k : ℕ) (xs ys : List ℕ) → among k xs ≡ true → among k (xs ++ ys) ≡ true
among_left k xs ys h = among-append k xs ys ∙ rw h refl

among_right : (k : ℕ) (xs ys : List ℕ) → among k ys ≡ true → among k (xs ++ ys) ≡ true
among_right k xs ys h = among-append k xs ys ∙ rw h (ground arith)

none_later :
    {A : Type 0} (seq_of : A → ℕ) (n : ℕ) (rows : List A)
    → ((k : ℕ) → among k (map seq_of rows) ≡ true → k ≤ n)
    → any_row (λ x. ltb n (seq_of x)) rows ≡ false
none_later seq_of n [] h = refl
none_later seq_of n (x ∷ rows) h =
    let here : seq_of x ≤ n = h (seq_of x) (ground arith) in
    ground (arith, none_later seq_of n rows (λ k there. h k (ground arith)))

stamped-NothingAfter :
    (n : ℕ) (s : Db) → ((k : ℕ) → among k (stamps s) ≡ true → k ≤ n) → NothingAfter n s
unfolding stamps
stamped-NothingAfter n s h =
    let first = meta_seqs s.meta in
    let members = map (λ (m : MemberRow). m.seq) s.members in
    let entries = map (λ (e : EntryRow). e.seq) s.entries in
    let events = map (λ (e : EventRow). e.seq) s.events in
    record {
      group = λ meta e.
          h meta.seq
            (among_left meta.seq first (members ++ (entries ++ events)) (rw e (ground arith)));
      members =
          none_later (λ m. m.seq) n s.members
            (λ k there.
              h k (among_right k first _ (among_left k members (entries ++ events) there)));
      entries =
          none_later (λ e. e.seq) n s.entries
            (λ k there. h k (
              among_right k first _ (among_right k members _ (among_left k entries events there))));
      events =
          none_later (λ e. e.seq) n s.events
            (λ k there. h k (
              among_right k first _
                (among_right k members _ (among_right k entries events there))));
    }

module _ (s : Db) (meta : MetaRow) (since limit : ℕ) where
  abbrev later : List ℕ
  later = ascending (rows_where (ltb since) (stamps s))

  whole_when_short :
      (moved : List ℕ) → take (suc limit) later ≡ moved → length moved ≤ limit → moved ≡ later
  whole_when_short moved e h = sym e ∙ take-short limit later (rw e h)

  no_later_stamp :
      (moved : List ℕ) (k : ℕ)
      → take (suc limit) later ≡ moved
      → length moved ≤ limit
      → among k (stamps s) ≡ true
      → k ≤ last_or since (take limit moved)
  no_later_stamp moved k e h there =
      let all : moved ≡ later = whole_when_short moved e h in
      let climbs : Climbs since moved = rw all (ascending-Climbs since (stamps s)) in
      rw (take-all limit moved h) (elim (Bool-cases (ltb since k)) [
        | inl new ↦
            among-last_or since k moved climbs
              (rw all (among-ascending since k (stamps s) (ground arith) there))
        | inr old ↦ omega (arith, last_or-bounds since moved climbs, not_ltb since k old)
      ])

  moved-Climbs : (moved : List ℕ) → take (suc limit) later ≡ moved → Climbs since moved
  moved-Climbs moved e =
      rw e at (take-Climbs (suc limit) since later (ascending-Climbs since (stamps s)))

  pub nothing_new : take (suc limit) later ≡ [] → NothingAfter since s
  nothing_new e = stamped-NothingAfter since s (λ k there.
      rw (take-all limit [] (omega arith)) at (no_later_stamp [] k e (omega arith) there))

  pub page_of_moved-Reaches :
      (moved : List ℕ)
      → take (suc limit) later ≡ moved
      → 0 < limit
      → Reaches s since (page_of_moved s meta since limit moved)
  unfolding page_of_moved page
  page_of_moved-Reaches [] e h = record {
    forward = omega arith;
    onward = λ more. cc;
    complete = λ last. nothing_new e;
  }
  page_of_moved-Reaches (n ∷ ns) e h = record {
    forward = last_or-bounds since _ (take-Climbs limit since (n ∷ ns) (moved-Climbs (n ∷ ns) e));
    onward = λ more. moves_on since limit n ns h (moved-Climbs (n ∷ ns) e);
    complete = λ last.
        stamped-NothingAfter _ s
          (λ k there. no_later_stamp (n ∷ ns) k e (not_ltb limit (length (n ∷ ns)) last) there);
  }
