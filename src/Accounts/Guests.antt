-- ===== src/Accounts/Guests.antt =====
-- server/src/scheduled.ts, `collectAbandonedGuests`: guests that nobody can reach any more.
pub mod Abandoned
use opensplit.Prelude.{
  ℕ, ◌-◌, ◌*◌, ltb, leb, Bool, true, false, ◌&&◌, not, List, [], ◌∷◌, map, rows_where, any_row,
  take, length, ◌==◌,
}
use opensplit.Chunked.{chunked, default_size}
use opensplit.Group.Upkeep.{in_array}
use opensplit.Directory.Tables.{Directory, UserRow, ProfileRow}

abbrev pub day_length : ℕ
day_length = 24 * 60 * 60 * 1000

abbrev pub guest_lifetime : ℕ
guest_lifetime = 90 * day_length

abbrev pub guest_batch : ℕ
guest_batch = 500

unfoldable pub is_in_a_group : Directory → ℕ → Bool
is_in_a_group d user = any_row (λ m. m.profile_id == user) d.memberships

unfoldable pub has_session_since : ℕ → Directory → ℕ → Bool
has_session_since cutoff d user =
    any_row (λ s. s.user_id == user && leb cutoff s.updated_at) d.sessions

-- A guest older than the cutoff, in no group, with no session used since.
unfoldable pub is_abandoned : ℕ → Directory → UserRow → Bool
unfolding is_in_a_group has_session_since
is_abandoned cutoff d u =
    u.is_anonymous
    && ltb u.created_at cutoff
    && not (is_in_a_group d u.id)
    && not (has_session_since cutoff d u.id)

-- The ids of one statement's batch.
unfoldable pub abandoned : ℕ → Directory → List ℕ
unfolding is_abandoned
abandoned cutoff d =
    take guest_batch (map (λ (u : UserRow). u.id) (rows_where (is_abandoned cutoff d) d.users))

unfoldable pub delete_profiles : List (List ℕ) → List ProfileRow → List ProfileRow
delete_profiles [] ps = ps
delete_profiles (ids ∷ rest) ps =
    delete_profiles rest (rows_where (λ p. not (in_array p.id ids)) ps)

-- `collectAbandonedGuests`: how many it collected. Sessions go with their users.
unfoldable pub collect_abandoned_guests : ℕ → Directory → ℕ × Directory
unfolding abandoned delete_profiles
collect_abandoned_guests now d =
    let ids = abandoned (now - guest_lifetime) d in
    (
      length ids,
      record d {
        users = rows_where (λ u. not (in_array u.id ids)) d.users;
        sessions = rows_where (λ s. not (in_array s.user_id ids)) d.sessions;
        profiles = delete_profiles (chunked ids default_size) d.profiles;
      },
    )
