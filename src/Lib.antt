-- ===== src/Lib.antt =====
-- A model of cik, a cache server for keys, tags and values (src/*.c of the repository), and theorems
-- about it.
--
-- A client sends a request of 16 bytes, followed by a key, tags and a value, to a worker thread. The
-- worker (src/server.c) reads it and hands it to its handler (src/controller.c), which works on three
-- structures: the entry maps (src/entry.c), hash maps with open addressing that own the entries; the
-- tag index (src/tag.c), a search tree that gives the keys of each tag; and the memory (src/memory.c),
-- partitions of buckets of one size each over one mapped region, from which entries, tree nodes and
-- list elements come. Each handler also puts an entry on its worker's log queue (src/log.c). What the
-- handler returns decides the response that the worker sends. On exit the entries are written as SET
-- requests (src/main.c), and on start they are replayed.
--
-- Prelude      names of the libraries, Boolean tests on numbers, lists
-- Bytes        byte strings: memcmp, and reverse_bytes of src/util.h
--   Xor, Reverse, Compare: the swap, the reversal, and the comparisons of keys and tags
-- Memory       src/memory.c: init_memory, push_memory, reserve_memory, release_memory
--   Buckets, Moves, Fit, Safety, Apart: the bookkeeping and its changes, the choice of a partition,
--   the operations, the layout
--   Races: a partition's free list under several threads, access by access
--   Races/Consistent, Moved, Popping, Releasing, Exclusive: what holds between two accesses, that each
--   keeps it, what follows for the list
-- Config       src/config.c: parse_args
--   Text, Line, Settings: the C library's text functions, parse_args on one line, parse_variable
--   Written, Bounds: lines by the way they are written, what gets into the settings
-- Log          src/log.c: the queue and the log_request functions
--   Print: print_log_entry, key2str and tag2str of src/util.c, flush_worker_logs of src/server.c
--   Mask, Ring, Fifo: the mask as a remainder, the queue as a FIFO, its runs against a list
--   Blocks, Packed, Flush: an entry's bytes, the tags in them, what a flush prints
-- Tag          src/tag.c: the tree and its key lists
--   Find, Keys, Listing: lookups after a write, key lists, what is listed after a change
--   Shape, Kept, Edits: order and counts, that changes keep them, runs of changes
--   Walk, Sorted, Matching: the walk with its stack, the order it meets, unions and intersections
-- Entry        src/entry.c: lookup, unset, set and walk
--   Probe, Lookup, Settle, Update, Walk: the probing loop, lookups, where a set writes, lookups after
--   it, walks
-- Protocol     src/types.h: status codes, requests, response headers
-- Stream       src/server.c: read_request_payload and write_response_payload over what read and send
--              return
--   Reading, Writing: the two loops for every sequence of results
-- World        the globals, one client and its worker, and the actions that handlers are made of
-- Controller   src/controller.c: handle_request, and in Reading, Get, Set, Del, Clr, Lst and Nfo the
--              handlers
--   Keeps, Stored, Room: what leaves the maps alone, lookups after a SET, the room for a new entry
--   Deleted, Ended, Deletion, Cleared: the loop of a DEL, its end on a sound memory, lookups after a
--   DEL, the maps after a CLR
--   Spared, Matched: the other keys in a deletion, lookups after a CLR by tags
--   Listed, Answered: the payload of names, what a LST answers
-- Server       src/server.c: one readable client from request to response, and load_request_log
--   Serving, Respond: what a GET answers, what is sent
--   Connections: the table of clients, wait_for_new_connection and close_client
--   Slots, Accepting: what every client has, which client a connection gets, a closing that is
--   interrupted
--   Starting: start_server and the workers' payload buffers
--   Buffers, Enough, Sizes, Startup: what a start comes to, a buffer for each worker, its size, a start
--   right behind init_memory
--   Stopping, Stopped: the workers' ends and stop_server, what it leaves behind
-- Persist      src/main.c: write_entry_as_set_request_callback and the loop over the maps
--   Reads, Loading: the reads of src/controller.c on what was written, an entry written and read
--   Restored, Replayed: the SET of a saved entry, load_request_log on it
--   Dumped: the file and the maps after the loop
-- Profiler     src/profiler.c, and the macro PROFILE as src/profiler.h has it when it is switched on
--   Moves, Nested, Exits, Accounts: single calls, what nested scopes should count, an exit, the
--   counters against the scopes
-- Threads      src/thrd-compat.h over what the pthread functions return, and init_util of src/util.c
--   Joined: a thread from its creation to its join
-- Main         src/main.c: main by its steps, the signals and the loop, run_logging_thread, write_stats
--   Leaving, Signals: the ways out of main, what ends the loop
-- Stats        write_entry_stats of src/entry.c, write_tag_stats of src/tag.c, write_memory_stats of
--              src/memory.c, write_client_stats of src/server.c, by their rows
--   Unchanged: the maps after it
-- Tests        the theorems at concrete inputs
--
-- A handler is a function on the world. It returns a value, returns early with a status, or crashes:
-- an access outside of an object, a NULL or dangling pointer. Numbers of 32 and 64 bits wrap where the
-- code's do. Requests are served one at a time, so locks are free and free lists unmarked between
-- calls; the free list has besides a model of its own, in which the accesses of any number of threads
-- come in any order, one behind another. What read and send return, the clock and the performance
-- counter are data of the world.
--
-- Loops have fuel: the probing loop as many rounds as the map has slots, the read loop as many as
-- bytes are asked for, the reversal one more than the block has bytes, and a DEL one round more than
-- the map of the key has slots. The first two are enough by the theorems on lookups and on reading,
-- and so are the other two by those on the reversal and on the loop of a DEL. The walk over
-- the tag tree has a round for each node and one more, which is enough by the theorem on the walk.
-- The printing of an entry's tags has a round for each byte and one more, and the flush of a queue one
-- for each waiting entry and one more; the theorems on both give what is returned with that.
--
-- getaddrinfo and fopen are arguments of the model of parse_args: a name's addresses or an error, and
-- a file's bytes or a failure. The string functions, fgets and strtol are written out as the code uses
-- them. The table of clients has its own record of a client; the world has the part that a handler
-- works on, and its client always has a worker.
--
-- The steps of main are a list of what it does with the results of its calls as an argument, and the
-- signals come in rounds, those between two tests of the flag quit.
--
-- Server and Main have the threads of the C library's <threads.h>, as src/types.h chooses; with
-- src/thrd-compat.h in its place each thread takes a bucket besides, which is in Threads.
--
-- Not modelled: the interleaving of threads but for the closing of a client and
-- the free lists; sockets, epoll and files,
-- which are the system's; thrd_sleep, thrd_yield and tss_get, which only pass a call on; the sanity
-- checks of main on sizes; of the statistics all that is floating point; of the log the colours and
-- blanks.
pub mod Prelude
pub mod Bytes
pub mod Config
pub mod Memory
pub mod Log
pub mod Tag
pub mod Entry
pub mod Protocol
pub mod Stream
pub mod World
pub mod Controller
pub mod Server
pub mod Persist
pub mod Profiler
pub mod Threads
pub mod Main
pub mod Stats
pub mod Tests
