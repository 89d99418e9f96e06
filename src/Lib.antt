-- ===== src/Lib.antt =====
-- The core of scache, a cache daemon that is spoken to over HTTP: src/core and src/server.
--
-- A connection (src/core/connection.cpp) reads requests into a circular read buffer
-- (src/core/read_buffer.cpp), which the parsers (src/core/http_parse*.cpp) take apart. They look
-- up, create and delete entries of tables in the database (src/core/db.cpp), which keeps small
-- contents in the blocks of one file, larger ones in files of their own, and all entries in an LRU
-- list.
--
-- ReadBuffer.antt models src/core/read_buffer.h and read_buffer.cpp as built without DEBUG_BUILD,
-- `rbuf_copyn` also with it: the record of the array and the two 16-bit positions, `rbuf_x` as
-- `x`, the macros as `read_len`, `read_move` and `write_move`. A memcpy or strncmp whose span
-- leaves the array is `none`. Its child modules prove the arithmetic (Bounds), the view of the
-- buffer as the list of unread bytes (Contents), and the three operations on it (Copy, Compare,
-- Number).
--
-- Store.antt models `struct cache_entry` and the LRU list of src/core/db.cpp: a heap from
-- addresses to entries, the list's two ends, and `db_lru_x` as `lru_x`. A step on memory that is
-- not allocated, or an assertion that fails, is `none`. The view as a list is in Links and Lru;
-- Unlink, Lru and Insert prove the operations.
--
-- Blocks.antt models the allocator of the block file in src/core/db.cpp: the free list, the two
-- counters of `uint32_t`, and the length that ftruncate gives the file; `db_block_x` is `block_x`.
-- Whether ftruncate succeeds is an argument. Ownership and Length are about its two duties.
--
-- HashMap.antt is the interface of khash, with its documented behaviour; HashMap/Slots.antt is a
-- small hash table that behaves so. Db.antt models the rest of the state of src/core/db.cpp
-- (`struct db_details`, `struct db_table`), the hash function, the time and malloc's addresses
-- being arguments. Its child modules are the operations: Refs (counts, `db_complete_writing`),
-- Delete (entries, in both ways, and tables), Lookup (`db_entry_get_read`, `db_entry_get_write`,
-- with the collection as an argument, `db_entry_get_delete`), Allocate (`db_target_write_allocate`
-- up to the opening of the target), Targets (the opening and closing of an entry's file or block,
-- the results of `open` being arguments), Tables (`db_table_get_read`, `db_table_get_write`),
-- Collect (`db_lru_gc` up to the flush of the index, `db_expire_cursor`,
-- `db_lru_cleanup_percent`). Index (`db_index_flush`: Index/Text has the rows, Index/Flush that
-- they are written) and Load (`db_load_from_save` and `db_open`: Load/Scans and Load/Rows have
-- that rows are read back, Load/Free the free list, Load/Leak and Load/Entries a loaded entry,
-- Load/Restart the way of the rows, Load/Table and Load/Restored that of a table and its entries
-- up to the database after a restart). A function `db_x` is `x` there. Each has child modules with
-- its theorems, and RoundTrip composes them.
--
-- Http.antt is the state of the server for one connection of type `cache_connection`: `struct
-- scache_connection` and `union utarget` of src/core/connection_structures.h, the database, the
-- outcomes of the reads of the socket, and logs of what was written to files and sent. A handler
-- is a function on this state and on `Outside`, the outcomes of the other system calls during one
-- event; results of calls of the same kind within one event agree. `http_x` is `x` there. Iterate
-- has `RBUF_ITERATE` of src/core/read_buffer.h, Methods and Templates the constants of
-- src/core/http.h, Register the registration for events and the choice of a response, Newlines,
-- Method, Url, Headers, Extract and Body the stages of src/core/http_parse.cpp and
-- http_parse_cache.cpp, Respond and Listing the responses of src/core/http_respond.cpp, and Events
-- src/core/http.cpp with the part of `connection_event_loop` that handles an event of a
-- connection. A read of memory that was not initialised is a fault. Assertions that only restate
-- the assignment before them, as those on `REQUEST_IS`, are left out.
--
-- Connections.antt models the queue of accepted sockets and the set of connections of
-- src/core/connection.cpp; a run of the threads is a list of operations, as each holds the lock.
-- Connections/Queue is the view as a list, Connections/Members is about the set. Monitor.antt
-- models the two lists of monitoring connections of src/core/http_parse_mon.cpp as a heap with the
-- ends of the lists; Monitor/Chain is the view as a list, Rounds and Check `monitoring_check`, Add
-- and Pending the additions, Stalled a removal, Strings the counts, Requests the handlers of a
-- request, with Methods for the request line, Blank for the end of the headers and Overrun for the
-- space after the URL. Settings.antt is `parse_binds` of src/core/settings.cpp: the text between
-- `state_start` and the position is kept in place of the two numbers.
--
-- Base.antt passes on the shared names, and has Boolean tests, lists and signed integers over the
-- native numbers; Base/Decimal and Base/Scan are what `snprintf` and `sscanf` do for the formats
-- that are used, Base/Printed that one reads what the other prints. Examples.antt runs the
-- definitions and the theorems on concrete inputs.
--
-- The search for a table runs on fuel, one round more than there are tables: each round but the
-- last meets another table. `RBUF_ITERATE` runs on fuel too, 2^16 rounds, more than a buffer has
-- bytes; the loop of `http_read_handle` on 2^16 + 1 rounds, one more than the counts of unread
-- bytes that there are, as it goes on only where the handler changed that count; the loop of
-- `db_expire_cursor` on as many rounds as the tables have places, after which the cursor is back;
-- that of `db_lru_cleanup_percent` on fuel that is an argument, for which one round more than the
-- LRU list has entries is enough, as each takes the head out; the handlers call each other to the
-- depth 2, a response and the next request. `full_write` runs on a round more than it has bytes,
-- enough where `write` takes at least one; the loops of `monitoring_check` on fuel that is an
-- argument, for which a round more than there are connections whose time has come is enough. All
-- other loops run down a count or a list. In the HTTP part the collection is an argument, so that
-- its settings can be chosen. Not modelled: the fork for a flush, the system calls that accept
-- connections and open listeners, the options of the command line and start-up; the memory that is
-- freed or leaked apart from entries and tables; src/core/khash.h and src/core/hash.cpp, which are
-- copies of other projects' libraries; system calls.
pub mod Base
pub mod ReadBuffer
pub mod Store
pub mod Blocks
pub mod HashMap
pub mod Db
pub mod Http
pub mod Connections
pub mod Monitor
pub mod Settings
mod Examples
