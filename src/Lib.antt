-- ===== src/Lib.antt =====
-- A model of naust-jmap, a JMAP server library in Go, and what is proved of it.
--
-- The program keeps every account in one ordered key-value store. A key is a list of escaped
-- segments; a write is a batch of operations with assertions, applied whole or not at all; the
-- writer lease of an account is a claim record that every commit asserts; each commit appends an
-- entry to the account's change log, from which the /changes methods answer.
--
-- Prelude: Go's byte strings, maps and Boolean tests, with their lemmas.
-- KeyEnc: core/internal/keyenc/keyenc.go, the key encoding (Segment, Key, PrefixSuccessor,
--   PrefixRange).
-- Backend: core/providers/backend/backend.go, batches and the counter encoding (EncodeInt64,
--   DecodeInt64).
-- Memory: core/providers/backend/memory/memory.go, the in-memory backend (Get, MultiGet, Scan,
--   WriteBatch, Close). A Go map is an association list with each key once. The mutex makes each
--   method one step; Scan releases it between chunks, so the model reads the store of each round.
-- Lease: core/providers/lease/storelease.go and lease.go, the two lease managers (Acquire, Release,
--   Fence, cas). Processes are interleaved step by step in Lease/System.
-- ObjectDb: core/objectdb/keys.go, the key builders (objKey, idxKey, logKey and the others);
--   core/objectdb/changes.go, the answer to a /changes request (Changes) and seqFromLogKey;
--   core/objectdb/changedids.go, the changes of several types that /queryChanges reads (ChangedSince);
--   core/objectdb/trim.go, the retention of the log (TrimChanges).
-- ObjectDb/Schema: core/descriptor/descriptor.go, the types of records (CheckValue), with the values
--   of an index (indexValue in core/objectdb/keys.go) and, from core/objectdb/objectdb.go, checkKinds,
--   diffProps and orderSegs.
-- ObjectDb/Indexing: the operations that keep the indexes of a record: indexOps in
--   core/objectdb/objectdb.go, setIndexOps in core/objectdb/setindex.go, refOps in
--   core/objectdb/blobs.go. They use the key builders and are read through Memory/Refinement.
-- ObjectDb/Update: core/objectdb/objectdb.go, the methods that stage an update (Create, Put,
--   PutInternal, Destroy, BumpState, SetAccountTag, ClearAccountTag). ObjectDb/Commit: buildBatch and
--   update, which make one batch of what is staged, with the operations of ObjectDb/Indexing.
-- ObjectDb/Lookup: core/objectdb/setindex.go, the reads of the membership index that an update makes
--   (IdsWhereMember, LowestMemberId).
-- ObjectDb/Blobs: core/objectdb/blobs.go, upload records, pending hints and the sweep (SweepBlobs).
-- Notify: core/providers/notify/inprocess.go, the in-process notifier (Publish, Subscribe, add, Wait,
--   Close). Notify/Wakeups interleaves one subscription's reader with the calls that signal it.
-- WebSocket: capabilities/websocket/internal/frame/frame.go, the frame reader (Next, in
--   WebSocket/Reader), the masking transform (mask) and the writer (WriteMessage).
--
-- A byte is a number, of which the theorems that need it ask that it is below 256. An int64 is its
-- 64-bit pattern. Instants are nanoseconds since 1970. The loop of Scan runs on fuel: one round more
-- than there are full chunks of keys is enough, as its theorem shows. The loop of appendPayload has
-- one round of fuel more than there are bytes to read. For the loop of Next, one round more than the
-- stream still yields bytes is enough. All other loops are structural.
--
-- Parameters: the texts of time.Time and of base-36 numbers, of which the lease tokens use that
-- they can be read back and hold no bar (Lease/Token, the interface Format); the readers and the
-- encoder of JSON values (ObjectDb/Schema, Codec); the JSON text of upload records (ObjectDb/Blobs,
-- Format); the JSON text of a log entry and the clock (ObjectDb/Commit); the store of the contents
-- (ObjectDb/Blobs, BlobStore).
--
-- Not modelled: waiting, timers and context cancellation of the lease managers, the native
-- compare-and-swap of a backend, JSON decoding (a log entry is its decoded value), the generation
-- of identifiers, the read cache of an update, the publication of a blob's content, the SQL drivers,
-- WebSocket connections, HTTP serving, mail parsing and delivery, and overflow of stored byte counts.
pub mod Prelude
pub mod KeyEnc
pub mod Backend
pub mod Memory
pub mod Lease
pub mod ObjectDb
pub mod Notify
pub mod WebSocket
