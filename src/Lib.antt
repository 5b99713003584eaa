-- ===== src/Lib.antt =====
-- A distributed storage platform: customers upload encrypted files, which are cut into chunks and
-- erasure-coded fragments; a scheduler places the fragments on nodes, nodes hold them against signed
-- tickets, a monitor follows the nodes, and a ledger bills customers and pays providers.
--
-- The parts, by file:
-- - Ledger: internal/ledger/ledger.go and accrue.go with the tables of internal/store/ledger.go.
--   Ledger/Amounts has the int64 arithmetic of charges, Ledger/Types the tables and their SQL,
--   Ledger/Post the operations of `Ledger`, Ledger/Accrual `Accruer`. A call of the database is a
--   function from `Db` to a result and a `Db`; `outages` says which of the calls to come fail. A
--   COMMIT that fails is taken as not committed there, and the trigger that refuses an unbalanced
--   transaction at COMMIT is left out: the code checks the sum before.
-- - Scheduler: internal/scheduler/scheduler.go and score.go. Scheduler/Nodes has the caps and
--   `eligible`, Scheduler/Score `nodeScore`, Scheduler/Pick `pick`, Scheduler/Place `Service.Place`.
-- - Tickets: internal/tickets/tickets.go.
--   Tickets/Wire has the wire form, Tickets/Codec the bytes, Tickets/Sign `Signer` and `Verifier`.
-- - Receipts: internal/receipts/receipts.go in Receipts/Receipt.
-- - Health: internal/store/nodes.go in Health/Rows and internal/healthmon/state.go in Health/Monitor.
-- - Agent: internal/agent/store.go in Agent/ChunkStore.
-- - Pipeline: `Encrypt` and `Decrypt` of internal/pipeline/pipeline.go in Pipeline/Segments.
-- - Uploads: internal/store/uploads.go, repair.go, lifecycle.go and files.go, with the rows of
--   chunks, fragments and placements in Uploads/Rows. Uploads/Begin, Commit, Download, Repair and
--   Delete have the operations, Uploads/Placements the statements on placements, Uploads/Lifecycle
--   the edges of a placement's status. A statement or transaction of Common/Database may fail, and
--   where the connection fails, its work may be done all the same.
-- - Metadata: internal/metadata/upload.go, repair.go and lifecycle.go. Metadata/Plan has
--   `PlanUpload`, Metadata/Receive `CommitUpload` and `CommitRepair`, Metadata/Download
--   `PlanDownload`, Metadata/Report `ReportDownload`, Metadata/Repair the rest.
-- - Repair: internal/repair/worker.go, internal/lifecycle/reaper.go and `PrioritySubject` of
--   internal/events/events.go in Repair/Worker.
-- - Challenges: `ComputeChallengeSet` of internal/healthmon/challenge.go and the digest with which
--   internal/agent/fragments.go answers, in Challenges/Sets; the rows of
--   internal/store/challenges.go in Challenges/Rows.
-- - Common: lists, integers, int64 arithmetic, bytes and calls with a state and an error.
--
-- The parts meet at the rows of nodes, which the scheduler reads and the monitor writes, and at the
-- nonce of a ticket, which the agent consumes; each part is modelled with its own view of them.
-- The world of Repair/Worker remembers the jobs of the last minute, as the stream of jobs does.
-- Metadata calls Uploads, Tickets and Receipts, and Repair calls Uploads and Metadata.
--
-- Bounds: numbers of Go's int64 are integers with wrap-around at 2 ^ 64 where the code computes
-- with them. The loop of `CatchUp` is stopped by the code itself after 48 windows; the model
-- recurses on that bound. The loops of `Encrypt` and `Decrypt` run on fuel, and one round more
-- than the plaintext has bytes is enough.
--
-- Parameters: Postgres and Redis answers, clocks, crypto/rand, Ed25519, base64, SHA-256, the file
-- system, float arithmetic, environment variables, `DeterministicTxnID`, fresh ids,
-- strings.TrimSpace, path.Clean, the answers of nodes and of the scheduler, the reconstruction of
-- shards, and the order in which Go visits a map. Strings that are only compared, ids and hashes of
-- certificates are numbers; times are seconds or nanoseconds.
--
-- Not modelled: HTTP and JSON, messaging, the SQL of reports and meters, chunking and erasure
-- coding, the audit that sends challenges, authentication and the certificate authority, and the
-- commands.
pub mod Common
pub mod Ledger
pub mod Health
pub mod Agent
pub mod Receipts
pub mod Pipeline
pub mod Scheduler
pub mod Tickets
pub mod Uploads
pub mod Metadata
pub mod Repair
pub mod Challenges
