-- ===== src/Lib.antt =====
-- Keeplin server: a verification library for crates/keeplin-srv.
--
-- The server stores notes as lines that several devices edit at once, decides who may read and write
-- them, keeps a journal of the other changes of a user's devices, and projects that journal onto its
-- tables by a queue of jobs. The state of the program is the database and a few tables in memory; here
-- it is records of lists of rows, and an operation takes the state to a result and the next state.
--
-- Files and what they model (paths are from the repository's root):
--   Base: shared helpers; Base/Outcome is `AppError` of crates/keeplin-srv/src/error.rs.
--   Protocol: crates/keeplin-srv/src/protocol.rs, `LineOp` and the messages. Protocol/Versions is
--     `merge_vv` and `advances_writer` of crates/keeplin-srv/src/collab.rs.
--   External: what the packages keeplin-core and uuid provide, as a record of parameters. No law is
--     assumed of them.
--   Lines: the tables `lines` and `note_line_order` of crates/keeplin-srv/src/store.rs.
--   Collab/Apply: `apply_op` of crates/keeplin-srv/src/collab.rs, which every line operation of every
--     device goes through, one at a time for each note (`lock_note_order`).
--   Permissions: crates/keeplin-srv/src/permissions.rs and `PermissionScheme` of config.rs.
--   RateLimit: crates/keeplin-srv/src/ratelimit.rs.
--   Projection: crates/keeplin-srv/src/projection.rs, the queue of projection jobs and its worker.
--   Sync: crates/keeplin-srv/src/sync.rs and the journal in store.rs: batches, cursors and the backlog of a
--     device. It fills the queue of Projection.
--   Entities: the statements of crates/keeplin-srv/src/store.rs that project notebooks, tags and the tags of
--     notes (`upsert_notebook`, `delete_notebook`, `upsert_tag`, `delete_tag`, `upsert_note_tag`).
--   Crypto: crates/keeplin-srv/src/crypto.rs, over the crates aes_gcm and base64 as parameters with the
--     laws that decryption inverts encryption and decoding inverts encoding.
--   Lines and Permissions: a text that is stored encrypted, a line's content or a note's title, stands in its
--     row as it was written. A statement that reads the row gives that text, or the error of its decryption;
--     which texts are read again is the store's cipher, a predicate `readable` on texts that the tables
--     carry. For a cipher of Crypto it is `is_readable`: every text under a key; with none, every text that
--     does not begin like an encrypted one.
--   Collab/Sessions: the sessions of notes and the messages of a connection in collab.rs. It runs `apply_op`
--     on the operations of a message, and reads access from Permissions.
--   Tables: the tables `users` and `resources`, and the statements of store.rs by which handlers change notes,
--     shares and owners; the notes, shares and notebooks are those of Permissions.
--   Transactions: `serializable` of crates/keeplin-srv/src/http.rs, over any operation. The state that an
--     attempt reads, and what its commit answers, are the environment's.
--   Sharing: the handlers of http.rs that share and hand over notes and notebooks, run by Transactions.
--   Notes: `update_note`, with the guard on leaving a notebook, and `delete_note` of http.rs.
--   Bodies: `create_note`, `import_note`, `export_note` and `materialize_body` of http.rs, on Tables and Lines.
--   Accounts: `login` of http.rs and the statements of store.rs on failed logins and mailed tokens.
--   Listing: the notes of a user by pages, `list_notes` of http.rs and `list_notes_for_user` of store.rs, on
--     the tables and the access of Permissions.
--   Maintenance: `gc_line_tombstones` of crates/keeplin-srv/src/store.rs, on the state of Lines.
--   Tests: the definitions and theorems at concrete values.
--
-- Numbers: ids are natural numbers, and so are times, in microseconds (nanoseconds in RateLimit). The
-- counters of a version vector are `u64` in the source and unbounded here: they are compared and
-- copied, never added to. An `i32` of capabilities is the number of its bits. A text is the list of its
-- bytes where its length matters. Tokens of the rate limiter are `f64` in the source and exact here.
--
-- Loops: those over lists are structural. The loops of the worker take the list of the times of their
-- turns, and that of the backlog takes fuel, a unit for each chunk; the theorems of Projection/Liveness,
-- Projection/Attempts and Sync/Backlog say how many are enough.
--
-- A handler that checks before its transaction reads the tables more than once; here these reads see one
-- state. Rows of a table have no order here; what `ORDER BY` promises is modelled in Listing, by a sort,
-- and in Sync, whose journal keeps its rows by their numbers.
--
-- Not modelled: texts written under another key than the one that is set, the text of a page's cursor and
-- the lists of other rows, resources and their blobs, the history of changes, the re-encryption of stored
-- texts, registration and devices, the hub of the journal's sockets; faults of the database, the network
-- and the file system, JSON, HTTP routing, mail, Argon2, JWT, the metrics, and the plumbing of LISTEN and
-- NOTIFY.
pub mod Accounts
pub mod Base
pub mod Bodies
pub mod Collab
pub mod Crypto
pub mod Entities
pub mod External
pub mod Lines
pub mod Listing
pub mod Maintenance
pub mod Notes
pub mod Permissions
pub mod Projection
pub mod Protocol
pub mod RateLimit
pub mod Sharing
pub mod Sync
pub mod Tables
pub mod Tests
pub mod Transactions
