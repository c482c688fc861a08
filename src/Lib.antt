-- ===== src/Lib.antt =====
-- scoutfs is a clustered filesystem: each mount is a client of one of the mounts, which runs the
-- server. This library models parts of the kernel module in kmod/src as pure functions and proves
-- what makes them correct.
--
-- Conventions: an unsigned field keeps its value as a natural number, with the wrap-around of its
-- width written out where the code relies on it; a struct is a record, an enum or a tagged
-- message a data type, a linked list a list, a kernel red-black tree a list in key order. A
-- function that changes a struct returns the new one. A negative errno is the error of a result.
-- Memory allocation and message sends enter as arguments that say whether they succeed. A handler
-- that holds a lock is one step from a state to the next.
--
-- - Key (kmod/src/key.h, cmp.h): the keys of all items, their order, successor and predecessor.
-- - Recov (kmod/src/recov.c): the clients that a new server waits for, as a list of rids with
--   bits. The kernel's list_sort is a parameter with its documented laws.
-- - LockServer (kmod/src/lock_server.c): locks with granted, requested and invalidated entries;
--   the handlers are in LockServer.Handlers. Requests wait while Recov says that a client is in
--   lock recovery. A greeting asks a client for its locks, a page at a time, and each recover
--   response asks for the next page. The walks over all locks take fuel; one more than there are
--   locks is enough, as long as no lock has the last key.
-- - Quorum (kmod/src/quorum.c): the election of the mount that runs the server. Quorum.Turn has
--   one turn of scoutfs_quorum_worker's loop, a function for each of its if statements, over a
--   status and the record Env of what it meets from outside; a turn yields the actions that it
--   does, the sends, the writes of the slot's block, and the server's start and stop.
--   Quorum.System runs the slots of a configuration in any order, where a vote is one that its
--   sender sent and a slot never restarts. Quorum.Blocks has the blocks of the slots and the
--   searches over them, Quorum.Slots the checks of the configuration, Quorum.Fence the fencing of
--   old leaders.
-- - Net (kmod/src/net.c): one end of a connection, with its queues of messages; a send that
--   succeeds is one step. Net.Link runs one direction of a connection, with a socket that may be
--   cut at any time, and Net.Codes has the errors of responses. A socket's shutdown is one step
--   with its worker, so that no submission comes between them, and fewer than 2^64 messages are
--   submitted.
-- - Trans (kmod/src/trans.c): the tasks that hold the transaction, each with its journal_info,
--   and the work that writes it. A hold that has to wait is a step that changes nothing; a task
--   has fewer than 2^19 holds, and there are fewer than 2^29 in all.
-- - Ext (kmod/src/ext.c): operations on extents over a storage, which is a parameter: the record
--   ExtOps of its callbacks with the laws ExtLaws of Ext.Laws. Ext.ListOps is a storage, a sorted
--   list, and Ext.ListStore shows that it keeps the laws. BUG_ON is an outcome of its own.
-- - Srch (kmod/src/srch.c): entries of the search index, their order and coding; a block's bytes
--   are a function of the offset. The `fls` of a u64 takes 64 steps of fuel, one for each bit.
-- - Srch.Track (kmod/src/srch.c): the tree of found inodes that a search keeps within a limit,
--   and the sweep of a log's entries.
-- - Spbm (kmod/src/spbm.c): sparse bitmaps.
-- - Avl (kmod/src/avl.c): the tree of a btree block's items; a path from the root stands for the
--   offsets of a node and its parent.
-- - Alloc (kmod/src/alloc.c): the keys of free extents in the two indices of an allocator.
--
-- Not modelled: block input and output, the caches, the btrees, sockets and their listeners, the
-- requests of the server that are calls of other parts, the VFS glue and the user space tools.
mod Prelude
pub mod Key
pub mod Recov
pub mod LockServer
pub mod Quorum
pub mod Net
pub mod Trans
pub mod Ext
pub mod Srch
pub mod Spbm
pub mod Avl
pub mod Alloc
