-- ===== src/Lib.antt =====
-- Models of the nginx toolkit modules: helpers that other nginx modules of the repository stand on.
--
-- The parts and their files:
--   * Map: ngx_map.c and ngx_map.h. The tree of nodes is `Tree`, a pointer to a node a `Cursor`,
--     which holds the way back to the root as the parent pointers do. ngx_map_find is `find`,
--     ngx_map_next `next`, and so on with each operation. Map.Sorted, Map.Walk, Map.Find,
--     Map.Update and Map.Insert hold the proofs, Map.Keys the hash and comparison functions for
--     numbers and strings, Map.UintMap the interface `KeyMap` for clients with ngx_uint_t keys.
--   * Url: ngx_parse_request_url of ngx_toolkit_misc.c, one function for each stage. Url.Grammar
--     is the grammar that the code reads, as a data type with a printer: the one of the header
--     ngx_toolkit_misc.h, but with a path or none, and a fragment only behind arguments.
--   * Port: ngx_request_port of ngx_toolkit_misc.c.
--   * Sockaddr: ngx_sock_pton and its three families, ngx_toolkit_misc.c.
--   * EventTimer: ngx_event_timer_module.c. A timer is its index in the array. The free list runs
--     through the timers' `data` fields and is read by FreeList.Chain. EventTimer.Valid is the
--     invariant, EventTimer.Init what the start of a process makes, EventTimer.Calls the calls.
--   * Poold: ngx_poold.c. NodePool holds the recycled nodes, NodePool.Free and NodePool.Tracked
--     their lemmas, Poold.Calls the record of pools through the calls. It uses the map by the
--     interface `KeyMap` only.
--   * Timerd: ngx_timerd.c, on the same recycled nodes. Timerd.Add and Timerd.Delete compare
--     ngx_add_timer_debug and ngx_del_timer_debug with what a client sees, the footprint and the
--     state of each event's timer; Timerd.Steps is about runs of calls and of timers that
--     trigger, with handlers that make calls of their own.
--   * Rbuf: ngx_rbuf.c, the chain buffers. Rbuf.Valid is the invariant of the free lists, one for
--     each size, Rbuf.Gives and Rbuf.Calls the calls, Rbuf.Twice a buffer put back twice.
--   * EventResolver: ngx_event_resolver.c, whose contexts are recycled nodes too.
--   * DynamicConf: ngx_dynamic_conf.c. Token is what one byte does in ngx_dynamic_conf_read_token
--     and Reader its buffer; Handler, Parse, Load and Check are ngx_dynamic_conf_handler,
--     ngx_dynamic_conf_parse, ngx_dynamic_conf_load_conf and the check of the file with the start of
--     a process. Reader.Whole compares the buffered reading with one scan of the whole text,
--     Handler.First the search for a command with the list of all commands, Handler.Decides and
--     Handler.Answers say what the handler asks of a command and what it returns. Load takes nginx's
--     pools from the interface `Pools` of Poold; the modules' functions that it calls neither create
--     nor destroy pools, though the one of ngx_http_dynamic.c, modelled in HttpDynamic.Servers,
--     does. Load.Ends is about a load from its start to its end. A call of ngx_event_timer_add_timer
--     is recorded, and its result is not read, as in the code.
--   * HttpDynamic: the locations and the servers of ngx_http_dynamic.c. Location is the directive
--     `location`, Trees the static ones: the comparison, the joining of the queue, the lists of
--     entries whose names go on from one name, the tree and the search in it. Search is the end
--     of a server's block and the search for a request's name, with the regular expressions.
--     Trees.Flat is a search of every entry, which Trees.Build compares with the tree, Trees.Best
--     says what such a search finds. HttpDynamic.Names is the order of names that
--     ngx_filename_cmp gives, as the interface `FileNames`, an instance argument of all that
--     compares names. Servers is the virtual servers: Servers.Names the directive
--     `server_name`, Servers.Adds, Servers.Ready and Servers.Tables what the end of the
--     http block makes of the names, Servers.Request the server of a request. Blocks is the blocks of the configuration,
--     where the parsing is an argument; Blocks.Runs is the runs through the modules as relations.
-- Base, Text, Int and FreeList are shared: lists and tests over native numbers, texts as lists of
-- bytes, signed integers, and chains.
--
-- Parameters stand for nginx: Rbtree for ngx_rbtree_insert and ngx_rbtree_delete, whose rotations
-- keep the order of the nodes; Searches for ngx_strlchr and ngx_strnstr; Addresses for the
-- address parsers; Pools for ngx_create_pool and ngx_destroy_pool; Timers for ngx_add_timer,
-- ngx_del_timer and ngx_delete_posted_event, with the flags they keep; EventTimers for
-- ngx_event_add_timer and ngx_event_del_timer; QueueSort for ngx_queue_sort, which is stable, and
-- Middle for ngx_queue_middle; Hashes for the hash tables of nginx; ngx_atoi, ngx_memn2cmp,
-- ngx_dynamic_regex_compile and ngx_regex_exec are functions; and FileNames is
-- ngx_filename_cmp where file names keep their case: it compares bytes by their ranks, with a NUL
-- behind a name, and the ranks are not fixed further (nginx's have NUL and then the slash lowest).
-- Numbers are natural numbers, with the wrap of ngx_uint_t and in_port_t written out where the
-- code converts or subtracts; the counters of nodes and timers only go up with a node or a timer
-- in memory.
--
-- Loops over a tree are recursion on it. The loop from ngx_map_begin by ngx_map_next is `walk`,
-- on fuel; as much fuel as the map has nodes is enough. The loop of ngx_event_timer_process_init
-- recurs on the rounds left, timer_n of them. ngx_dynamic_conf_read_token and
-- ngx_dynamic_conf_parse take fuel: as many rounds as the file has bytes and one more are enough.
-- The list and the tree of locations are made with as many rounds as there are entries, which are
-- enough.
--
-- Not modelled: the functions that print a module's state, logging but for the messages of Timerd
-- and Rbuf, and memory exhaustion where the code ignores it; the allocation of the configurations of
-- ngx_http_dynamic.c; and the other modules of the repository (ngx_dynamic_resolver.c,
-- ngx_http_trace_module.c). Of ngx_toolkit_misc.c the random number, the MD5 of a file and the copy
-- of a string are left out.
pub mod Base
pub mod Text
pub mod Int
pub mod Port
pub mod Sockaddr
pub mod Url
pub mod FreeList
pub mod EventTimer
pub mod NodePool
pub mod Poold
pub mod Timerd
pub mod Rbuf
pub mod EventResolver
pub mod HttpDynamic
pub mod Map
pub mod DynamicConf
