-- ===== src/Lib.antt =====
-- SyncServer: a self-hosted synchronisation server for Obsidian vaults and the plugin that talks to
-- it, end-to-end encrypted. This library models decisions of both programs as executable
-- definitions and proves what makes them correct.
--
-- Plugin.Rename is plugin/src/engine/rename.ts: `renameSourceFor` (rename_source_for) and
-- `folderMoves` (folder_moves) with their helpers. Plugin.Wire has `ServerNode` of engine/wire.ts
-- and `KnownNode` of engine/state.ts. Plugin.Reconcile is engine/reconcile.ts: `decide`, one of ten
-- outcomes for one local file; it asks Plugin.Rename for a rename source. Plugin.Remap is
-- engine/remap.ts: the walk's maps after a folder move (`remapTree`, `remapState`). Plugin.Tree is
-- engine/tree.ts (`treeFrom`: the map that the other three take) and engine/scopes.ts. Plugin.Unseen
-- is plugin/src/unseen.ts: the marks that a pass leaves on what it pulled. Plugin.LocalChanges is
-- plugin/src/local-changes.ts: the watcher that starts a pass. Plugin.Conflict is `folded` of
-- plugin/src/conflict.ts.
-- Server.Attempts is server/src/auth/attempts.ts: the limiter on failed sign-ins. Server.Rate is
-- server/src/blobs/rate.ts: the limiter on uploaded bytes.
--
-- Server.Store has the rows of server/db/schema.sql as records and the tables as lists, on which
-- the SQL statements are functions: DELETE is a filter with the number of rows that went, UPDATE
-- a map, EXISTS a search. Server.Retention is server/src/retention.ts (`thinVersions`,
-- `removeSpentTrash`, `dropSpentClaims`, `markUnreferenced`, REFERENCED), Server.Remove is
-- server/src/nodes/remove.ts, Server.Collector the statements of `sweep` in
-- server/src/collector.ts and its loop over the files, Server.Collector.Pass a whole pass, with
-- what other sessions write between its transactions, Server.Holdings server/src/holdings.ts and
-- server/src/revision.ts, and Server.Quota server/src/quota.ts and server/src/account.ts. The
-- collector runs the retention's statements, the retention removes nodes through Server.Remove,
-- and what it may remove is what Server.Holdings claimed. A statement that the schema refuses
-- answers `none`: removing a node that a child or a share names (`parent_id`, and
-- `subtree_node_id` of `shares`). The reference of a vault to its root is checked where the pass
-- commits. Server.Ancestry is server/src/ancestry.ts.
--
-- Server.Refusal is server/src/refusal.ts, and Server.Tx a transaction: a function of the tables
-- that ends with a value, a refusal or an exception, and with what it had written; `tx_guarded` (`txGuarded`) has the commit and the rollback (`tx` of server/src/db.ts). Server.Nodes is server/src/nodes/service.ts: `createNode`, `putContent`,
-- `deleteNode` and `moveNode` as callbacks of one transaction each, written in do blocks as the
-- source awaits its statements. They store the key material of server/src/material.ts
-- (Server.Material, with `dedupLookup`), take a revision and write the journal and the version
-- (Server.Holdings), and hand the write to Server.Propagate, which is
-- server/src/shares/propagate.ts: `fanOut` (fan_out) finds the other live, unfrozen participants of
-- the share and writes into their copies through Server.Replica (server/src/shares/replica.ts).
-- The ids that are drawn (`gen_random_uuid()`, `randomUUID()`) are functions of the tables, of
-- which nothing is assumed, and what triggers and deferred constraints of the schema refuse at the
-- commit is a function of the tables that would be committed. A trigger that refuses one statement
-- on what the tables hold at that moment ends in the same rollback and is not modelled.
--
-- Server.Delta is server/src/delta: the position of a vault and the rejection of a cursor, the
-- changes and the listing (service.ts), in Delta.Cursor the signed cursor (cursor.ts), and in
-- Delta.Answer the handler of `GET /vaults/:vaultId/delta` (routes.ts), whose pages Delta.Series
-- follows through a series of requests; Delta.Device is the plugin's walk (Plugin.Tree) of the
-- server's listing. The signature and the text of a payload are parameters, and the limit of a
-- request is an integer, or not a number. Server.History is server/src/history/service.ts
-- (`listVersions`, `listTrash`, `restoreNode`); the text of a time is a parameter.
--
-- Texts are lists of UTF-16 code units. A Map, a Set or a plain object is a list in insertion order
-- (Prelude.Maps, Prelude.Sets); Array.sort is the stable insertion sort. Numbers are natural: the
-- times, sizes and revisions of these files are never negative, and where a difference of times can
-- be, the comparison that follows it has the same answer at zero. The clock, and what was read from
-- the disk or from the server, are arguments. So are the keys that a device can open and the
-- decryption of a name, which may fail, PostgreSQL's date_trunc to days and to weeks,
-- of which nothing is assumed, and whether a file can be removed from disk.
--
-- Fuel: `add_ancestors` has the length of the path, and every parent is shorter than its path;
-- contains-folders_of shows that it reaches every ancestor.
--
-- Not modelled: the network, the file system, the user interface, cryptography, the collector's
-- timer and its walk of abandoned parts, whose number a pass takes, the life of a share (its
-- preparation, invitations, joining, leaving and catch-up), the rows that an upload in parts and a
-- vault's reset write, the purge of the trash, the account states on a delta answer, and the row
-- locks: a transaction runs alone.
mod Prelude
pub mod Plugin
pub mod Server
