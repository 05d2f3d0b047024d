-- ===== src/Lib.antt =====
-- Money Flow Service: the backend of a shared household ledger (backend/app).
--
-- A household has members with roles (owner, co-owner, editor, viewer), invitations, categories,
-- transactions and holdings. Every request is a handler of a FastAPI route: it opens a SQLAlchemy
-- session, reads and writes rows, commits, and broadcasts what changed to the household's sockets.
-- Members and invitations (backend/app/api/routes/household.py) decide who may act; transactions
-- (backend/app/api/routes/transactions.py) refer to the categories of their household
-- (backend/app/api/routes/categories.py) and to their owners
-- (backend/app/services/owner_links.py), and their patches are merged by versions
-- (backend/app/services/merge.py), as those of holdings (backend/app/api/routes/holdings.py) are.
-- Who a request comes from is told by signed tokens, which can be revoked
-- (backend/app/api/routes/auth.py).
--
-- The files:
--   Prelude      what the modules share: Boolean tests, equality as an interface, lists as database
--                tables (Tables) with the laws of SELECT, UPDATE and DELETE, Python's text functions
--                (Text), and lists by index (Lists).
--   Errors       backend/app/core/errors.py: the errors that end a request.
--   Models       backend/app/db/models.py: enumerations, rows, and the database as a record of tables.
--   Session      backend/app/db/session.py: a session holds the stored and the working database and the
--                events that were sent; a handler passes it on and ends in a value or an error. Keeps
--                has a rule for invariants for each way to make a handler, Guards those that only test.
--   OwnerLinks   backend/app/services/owner_links.py and normalize_optional_text of
--                backend/app/services/profile.py.
--   Household    household.py: Members (patch_member_role, remove_member), Invitations
--                (create_invitation, accept_invitation, accept_invitation_by_id, revoke_invitation),
--                Requests (sequences of them), Examples.
--   Merge        merge.py: changed_fields_since and merge_patch_or_raise, over an interface of typed
--                columns that an entity fills.
--   Ledger       transactions.py: Columns (a transaction as such an entity), Order and Allocation
--                (order keys), Reads, Recent, Creation (create_transaction), Patching (patch_transaction),
--                Deletion (delete_transaction, bulk_delete_transactions), Cases (the steps that only
--                read), Sound (what the handlers keep), Listing (list_transactions), Tokens
--                (the texts that a cursor is made of), Cursor (the signed cursors), History (list_transaction_history; its child modules Order,
--                Sorting, Pages and Paging say where a page stands in the ordered history, and
--                Cursors what becomes of a cursor that was issued).
--   Categories   categories.py: create_category, patch_category, delete_category,
--                rename_major_category_group.
--   Access       backend/app/api/deps.py: get_current_household and the guards on roles.
--   Auth         backend/app/api/routes/auth.py with backend/app/core/security.py and get_current_user
--                of deps.py: Origins (origins and forged requests), Tokens, CurrentUser, Throttles (the
--                counters of attempts), Login, Sessions (refresh_session, logout), Revocation (revoked
--                tokens through sequences of requests), Limits, Granted, Attempts, Examples.
--   Holdings     backend/app/api/routes/holdings.py: Columns (a holding as an entity that is merged
--                into), Identity (which holdings are the same asset), Creation, Patching (patch_holding,
--                delete_holding), Cases, Recording, After (the columns after a
--                patch), Patched, Examples.
--   Bookkeeping  sequences of requests on transactions and categories, and Examples.
--
-- A handler is named as in the source. Where the source branches on a looked-up row, a helper of
-- the handler has a clause for each outcome. `raise` becomes an outcome; the request that raises
-- keeps what it has committed. What comes from outside is a parameter: the clock, the ids and
-- tokens that are drawn, the hash function, PyJWT (Jwt), what the history cursors use of json,
-- base64, hmac and datetime (CursorCodec, with its documented behaviour in IsCodec), the password
-- function, whether a mail was taken (Surroundings), the verdict of the database on a commit
-- (Verdict: none, or the constraint that it reports), and what other requests have stored when the
-- commit of a creation fails. Requests are taken one after the other, as the row locks that most
-- handlers take make them; an interleaving that breaks a constraint is a verdict.
--
-- Identifiers are UUID texts that are only compared, so they are numbers, and a cursor has their
-- texts; instants are UTC seconds and days are counted; amounts are hundredths, and quantities and
-- costs of holdings are in their least units. Texts are lists of code points; `lower` and `upper`
-- map the ASCII letters. The loop of _allocate_order_key runs at most twice, as `range(2)` says,
-- and its rounds are the argument of `allocate_rounds`; the loops of the counters of attempts run
-- four and three times, as `range(4)` and `range(3)` say; every other loop is over a list.
-- Order keys and versions are not bounded by the width of the database's integers.
--
-- Not modelled: the texts shown to users, the column updated_at, the listings of categories.py and
-- holdings.py, registration, verification by mail, profiles and cookies of auth.py, the refusal by
-- urlsplit of unmatched brackets, the registry of locks _invite_creation_guard of household.py,
-- imports, prices, the dashboard, mail and sockets themselves, the frontend, and the scripts.
mod Prelude
pub mod Errors
pub mod Models
pub mod Session
pub mod OwnerLinks
pub mod Merge
pub mod Ledger
pub mod Household
pub mod Categories
pub mod Bookkeeping
pub mod Access
pub mod Auth
pub mod Holdings
