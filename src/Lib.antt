-- ===== src/Lib.antt =====
-- A verification library for opensplit's server: the object that holds one group's ledger, what it
-- sends to the directory in D1, accounts and their end over all groups, and the object that collects
-- exchange rates.
--
-- The program. A group of people share expenses. All that a group is lives in one durable object
-- with its own SQLite database (server/src/do/group/), which runs one request at a time, each in a
-- transaction, and numbers the writes. The routes of the API forward to it, and it owes the
-- directory in D1 an outbox of staged writes.
--
-- The parts, and the file that models each, under Group/ unless it says otherwise.
--   Schema, Tables    the tables and the bodies: db/group/schema.ts, db/appearance.ts,
--                     schemas/ledger.ts (all paths from server/src/)
--   Refusal, Action   do/group/refusal.ts, and what runs in one transaction: an `Action` reads and
--                     changes the database or throws. A refusal becomes a result; an exception
--                     of the database, here `broken`, becomes a crash. Both roll back.
--   Store             do/group/store.ts: the counter, the lookups that refuse, the end of a group
--   Balances          do/group/balances.ts: the query for the open positions
--   Upkeep            do/group/upkeep.ts: the outbox, its retries, groups without accounts
--   Events            do/group/events.ts: the activity record
--   Entries, Departed, Ledger   do/group/ledger.ts: an expense and its checks, the check on those
--                     who have left, and `putEntry`
--   Roster, Invites   do/group/roster.ts and do/group/invites.ts
--   Changes, Notices  do/group/changes.ts and do/group/notices.ts
--   Object            do/group/index.ts: the methods that write, as requests, and `serve`, which
--                     runs a history of them on one database
--   Chunked.antt      chunked.ts, beside Group.antt
--   Directory.antt    the tables of D1: db/d1/schema.ts and the accounts of auth-schema.ts
--                     (Directory/Tables), and `apply` of do/group/index.ts (Directory/Apply)
--   Flush.antt        `settle`, `flush` and `drain` of do/group/index.ts: the outbox of one object
--                     sent to D1, and its alarm
--   Accounts.antt     profiles, devices and the profile feed (Accounts/Profiles, Accounts/Devices):
--                     api/account.ts, db/d1/profile-version.ts and `createProfile` of auth.ts;
--                     forget.ts over D1 and all objects (Accounts/Forget); the sweep of guests of
--                     scheduled.ts (Accounts/Guests)
--   Identity.antt     the routes `google` and `emailVerify` of identity/routes.ts, over the
--                     authentication library, which is a parameter
--   Pull.antt         the route `pull` of api/ledger.ts, over D1 and all objects, with the calls
--                     of it that fail as a parameter
--   Fx.antt           the writer of exchange rates, beside Group.antt: do/fx/index.ts with its
--                     tables (Fx/Tables), what it keeps and publishes (Fx/Rates), the stretches
--                     without rates (Fx/Gaps) and its methods (Fx/Runs)
-- Functions keep their names in snake case: `putEntry` is `put_entry`, the method of the object
-- that calls it `put_entry_as`. Definitions that the source writes inline have names of their own.
--
-- How the proofs are built. Group/Action/Keeps has one rule for each way to build an action, for
-- any preorder on databases. Group/Frame lists the changes of which every request is composed, so
-- that what such a change respects, a history does: Group/Books and Group/History are instances.
-- Group/Action/Returns speaks of the answer as well. Flush/Kept does for a flush what Keeps does for
-- a transaction, and Accounts/Forget composes the two over D1 and all objects. Prelude/Sorting holds
-- what a page cut from a sorted table is, for feeds.
--
-- Numbers. Amounts are natural numbers and positions signed integers, without a bound: the source
-- keeps both in 64-bit columns and reads them as doubles, exact up to 2^53. Ids, tokens, currency
-- codes, dates and exchange rates are natural numbers, since they are only compared. Instants are
-- epoch milliseconds, and a day of the exchange rates is its number since 1970, a year of which
-- the code may look back. The supported currencies, the month of a day and the answers of the
-- providers are parameters there. Texts are lists of UTF-16 code units. The loop of `chunked`
-- runs on as many rounds as the list is long, which is enough since each takes an element at
-- least; `drain` on two more than there are staged rows, enough since a round sends a row at
-- least and one purge may be staged on the way. What D1 answers is a list, after whose end it
-- takes every write. What `crypto.randomUUID` answers is a sequence held in the database. A
-- request over several objects and D1 carries the number of steps before it is cut off, `lives`:
-- a theorem on it holds for every number.
--
-- Not modelled: the messages of refusals; foreign keys; the push after a write; writes that reach
-- an object while its flush waits for D1; the calls that reach the exchange rates while it waits
-- for a provider, and the adapters of the providers; requests to different objects and to D1 that
-- run side by side; the API's other routes, which forward to an object; the start of a sign-in,
-- mail, push, and the app.
-- A database holds one row of metadata at most, and one chore.
pub mod Prelude
pub mod Accounts
pub mod Chunked
pub mod Directory
pub mod Flush
pub mod Fx
pub mod Group
pub mod Identity
pub mod Pull
pub mod Tests
