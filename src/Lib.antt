-- ===== src/Lib.antt =====
-- PunkGo kernel: a model of the kernel of the repository, with the theorems that make it correct.
--
-- The kernel records what actors do. An actor is a human or an agent that a human created; it submits
-- actions (observe, create, mutate, execute) on targets. The kernel checks whether the actor may do
-- this, takes energy for it, and appends an event to a log that is only ever appended to. Agents act
-- under envelopes: budgets with targets and action types, which a human grants, and which can hold an
-- action until a human has decided on it.
--
-- Parts, and the files that model them:
--
-- Prelude: names shared by all files. Prelude/Int: `i64` as an integer, with the wrap-around of 64 bits
--   written out where the source computes in Rust. Prelude/Table: tables with a text as primary key,
--   with Kept for the rows that a write leaves. Prelude/Texts: methods of `str` and `to_string` of a
--   number. Prelude/Lists and Prelude/Tests: lists and Boolean tests.
-- Core: crates/punkgo-core/src, the rules that need no database.
--   Core/Errors: errors.rs. Core/Json: what is used of serde_json. Core/Action: action.rs, with the
--   arithmetic of the price in Core/Action/Cost. Core/Policy: policy.rs. Core/Actor: actor.rs, with the
--   texts of types and statuses in Core/Actor/Names and the slugs in Core/Actor/Sanitize.
--   Core/Boundary: boundary.rs, with who may write in Core/Boundary/Access and what is handed on to a
--   created actor in Core/Boundary/Delegation. Core/Consent: consent.rs, with its checks in
--   Core/Consent/Checks and the reduction of envelopes in Core/Consent/Reduction.
-- State: crates/punkgo-kernel/src/state, one file for each store.
--   State/Ledger: energy_ledger.rs; its invariant, its preservation and sequences of operations are in
--   State/Ledger/Invariant, Preserve and Steps. State/EventLog: event_log.rs, with Append and Query.
--   State/EnvelopeStore: envelope_store.rs, with Holds for the decisions on holds and Budget for the
--   consumption. State/ActorStore: actor_store.rs, with Writes for the lookups after a write.
--   State/AuditLog: `append_leaf_in_tx` of crates/punkgo-kernel/src/audit.rs, with Loop and, for
--   the Merkle tree that it keeps, Tree.
--   State/BlobStore: blob_store.rs on a list of files, with Addresses and Content.
--   State/Store: the defaults and the checks at startup of store.rs, with Startup.
-- Runtime: crates/punkgo-kernel/src/runtime.
--   Runtime/World: all tables together (`World`), the monad of the code of the kernel, and what is
--   taken from outside (`Externals`).
--   Runtime/Submit: `submit_action` and `execute_hold_response` of kernel.rs, whole, from the steps in
--   Stages and Responses, and from
--   Runtime/Admission: the first step, up to the hold rules; Envelope, Standing and Sound build the
--     theorem on it.
--   Runtime/Holds: the trigger of a hold, its expiry and the transaction of a decision; in Requests the
--     answer to a hold and the check of the rules.
--   Runtime/Payload: `require_valid_oid`, `validate_execute_payload`, `parse_hold_response` and
--     `parse_policy_version`, with Accepts.
--   Runtime/Creation: `parse_create_actor_spec` and `parse_create_envelope_spec`.
--   Runtime/Lifecycle: lifecycle.rs, with Parse and Freeze.
--   Runtime/Commit: `finalize_energy_and_event`, on a record of the tables, with Keeps.
--   Runtime/Charge: what is done to the envelope after the commit, with Budget.
--   What holds of submissions: Runtime/Evolution says what one submission may do to the tables, and
--   builds it up from the writes (Tables, Transactions, Rules) to the submission (Submission);
--   Runtime/Depth is on the nesting of submissions, with Enough; Runtime/Outcome is on the result of one
--   submission, with Rules, Held, Leak and Lockout; Runtime/History is on a database from its start on.
--   Runtime/EnergyProducer: `produce_tick` of energy_producer.rs and the checks of a configuration in
--   crates/punkgo-core/src/stellar.rs, with Shares, Neutral and Minimum.
-- Tests: small inputs, and each theorem at one of them.
--
-- How state is modelled: a table is the list of its rows in insertion order. A store's write inside a
-- transaction is a function from the table to an error or the new table, and an error means that the
-- transaction is rolled back, so that the old table stays. In the kernel's own code, a step takes the
-- world to the next world and a result: what a transaction wrote before a later step fails stays
-- written, as in the source. The time a write reads is an argument `now`, in milliseconds; where the
-- source reads the clock several times in one submission, the one that it makes of an approved hold
-- included, the readings are one. Columns of type TEXT that hold a decimal number of milliseconds are
-- numbers, columns that hold JSON are the values. Messages of errors keep their fixed words.
--
-- Integers: `i64` is an integer, and Rust's `+`, `-` and casts wrap around at 64 bits, as in a release
-- build; SQL's arithmetic is exact.
--
-- Loops are structural but these. The levels of the Merkle tree have 64 steps of fuel, which is enough
-- for an index below 2^63, as the column of the log holds them, and the digits of a number 40, which is
-- enough for the digits of a u128. An approved hold submits the held action again from within a
-- submission, which can answer a hold in turn:
-- the nesting is bounded by fuel, and it is a theorem that one more than the number of waiting holds is
-- enough, since each level decides one.
--
-- Parameters, which stand for code outside the repository: serde_json (`Json`, `HasSizes`, and in
-- `Externals` the readers of the types that serde derives), SHA-256 and the serializer of events
-- (`Hashing`), globset (`GlobSet`), SQL's LIKE (`Like`, `FindsMembers`), the index and node hash of
-- tlog (`Tlog`, `IsTlog`), the UUIDs (`Externals.uuid`, by the number drawn so far), and the
-- arithmetic of f64 (`Floats`, and `Externals.ceil_fifth` for the cost of a withdrawn hold).
-- `GivesI64` says that what is read as an i64 is below 2^63.
--
-- Not modelled: the read queries and the dispatch of requests (kernel.rs), the warning about the
-- targets of an audit, the checkpoints and proofs of the Merkle tree (audit.rs), the text of
-- signatures and the JSON of errors; the daemon, the command line, sockets and files, which are
-- input and output.
pub mod Prelude
pub mod Core
pub mod State
pub mod Runtime
pub mod Tests
