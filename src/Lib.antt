-- ===== src/Lib.antt =====
-- Verification library of hpserver, an HTTP and CONNECT forward proxy in C++.
--
-- The program accepts connections in an epoll loop (src/hpserver.cpp) and drops those from
-- addresses on a blacklist (src/net/core/ip_filter.cpp). Bytes that a connection reads go to the
-- request parser (src/net/http/http_request_parser.cpp), which llhttp calls back; a complete
-- request is written anew for the upstream server by the message builder
-- (src/net/http/http_message_builder.cpp), whose other functions write the proxy's own responses.
-- Responses are kept in a cache of two levels, the first of which is the LRU cache of src/util.
-- Two pools of threads (src/util/thread_pool.h) do the upstream work: src/net/proxy/http_proxy.cpp
-- forwards a request and relays a CONNECT tunnel. A connection (src/net/http/http_conn.cpp) has
-- its buffers in src/net/http/http_connection_io.cpp, and src/util/timer.h closes idle ones.
-- src/main.cpp reads the command line.
--
-- Which file models which part:
-- - Prelude: Boolean tests on native numbers, lists, bytes, integers, and the laws of bit masks
--   that the parts share.
-- - Text: what the sources use of the C and C++ text functions (the strtol family, std::to_string,
--   find), with the laws of decimal numbers in Text/Decimal.
-- - Util/Trie: src/util/bitwise_trie.h. A unique_ptr is a Child; insert, search and remove go down
--   32 bits.
-- - Util/Bloom: src/util/bloom_filter.h, with the FNV-1a hashes computed in 64 bits.
-- - Util/RingBuffer: src/util/ring_buffer.h; Refine relates it to a bounded queue. An operation
--   under the mutex is one step.
-- - Util/MemoryCache: src/util/memory_cache.h. std::list nodes carry addresses and the hash map
--   goes from keys to addresses. Invariant says when the two agree, Valid that the operations keep
--   it, Refine relates the cache to a list of entries in the order of their use.
-- - Net/IpFilter: src/net/core/ip_filter.cpp. Laws has single addresses, Ranges the CIDR ranges,
--   File the lines of the blacklist file.
-- - Http/Request: request_info of src/net/http/http_request_parser.h. The unordered_map of headers
--   is a list of pairs in the order in which a loop meets them.
-- - Http/Builder: src/net/http/http_message_builder.cpp. Reading is a reader of HTTP heads that
--   shares no code with it; Responses, Forward and Upstream read back what the builder writes, and
--   Targets describes request targets and their origin form apart from it.
-- - Http/Fields: how header names and values that arrive in pieces become entries of the map.
-- - Http/Llhttp: the interface of third_party/llhttp. A run of llhttp is a list of callbacks, an
--   outcome and a new state.
-- - Http/RequestParser: src/net/http/http_request_parser.cpp. Messages has whole requests,
--   HostPort the authority of a request.
-- - Http/ResponseParser: src/net/http/http_response_parser.cpp. Replies has whole responses and
--   those that run to the end of the stream.
-- - Http/PersistentCache: src/net/http/persistent_cache.cpp over RocksDB and the protobuf codec,
--   which are one record of operations. Lookup has what a look-up finds after a store, Entries the
--   responses made from an entry, Lifetimes the max-age, Opened the handle that is null until open
--   succeeds.
-- - Http/HttpCache: src/net/http/http_cache.cpp, the memory cache in front of the persistent one.
--   Levels has the keys, and what a look-up finds after a store.
-- - Os: the outcomes of system calls, and the errno values that the sources test.
-- - Http/ConnectionIo: src/net/http/http_connection_io.cpp. Conserved follows the bytes through
--   both buffers.
-- - Http/HttpConn: src/net/http/http_conn.cpp, the buffers together with the parser. Once has what
--   the parser is given.
-- - Util/Timer: src/util/timer.h. Heap has the order of the nodes, Entries the map, Live the
--   operations, Tick what is left after a tick, Early what it leaves alone and the size of the
--   heap, Keep what it does to a state that the callbacks change.
-- - Util/ThreadsafeQueue: src/util/threadsafe_queue.h. A node stands at an address, and the queue
--   is a chain of them with an empty one at its end: Chain has what its calls make of the chain,
--   Refine the list that they are to their callers.
-- - Util/ThreadPool: src/util/thread_pool.h as steps of workers, of one thread in push or
--   try_push, and of stop. The queue of tasks is a list here; its nodes are in
--   Util/ThreadsafeQueue. Order follows the tasks, Leaving, Stopped and Drain a stop that waits.
-- - Net/Socket: src/net/core/socket_ops.cpp. A handle has a descriptor or none, the operations say
--   what they close, and a wrapper takes the system call as a function. Owned counts the
--   descriptors over many handles.
-- - Net/Poller: src/net/core/poller.cpp, the same for an epoll instance.
-- - Logger: src/logger, the line of an entry, and the steps of the thread that writes the entries.
--   Drain has what it has written, Drain/Ending how it ends.
-- - Net/Proxy: src/net/proxy/http_proxy.cpp. The module itself has the helpers on one descriptor;
--   Connect, Forward and Tunnel have connect_upstream, forward_request and forward_connect_tunnel;
--   Relay, Completion, Owned, Attempts and Retries their theorems.
-- - Server: src/hpserver.cpp, the table of connections and its operations; Clients has the events
--   of the main loop and the steps of the server, Idle, Timed, Handlers and Clean what they leave.
--   Start is the construction, the set-up of listen and the destructor, over the handles of
--   Net/Socket and Net/Poller; Start/Closing and Start/Ready have what it opens. Accept is the
--   loop that accepts clients, with the filter of Net/IpFilter; Accept/Admission has whom it lets
--   in, Accept/Blacklist whom it turns away. Loop is the main loop, Loop/Refine relates it to the
--   steps, and Loop/InTime has its timeouts. Notify has the eventfd that tells the main loop of a
--   done event.
-- - Main: src/main.cpp. Settings goes from settings to the command line and back.
-- - Tests: runs on concrete inputs, and each result that has hypotheses at one where they hold.
--
-- Bounds: the eviction loop has as much fuel as the list has nodes, and every round takes one off.
-- std::to_string has one more round than the number, which never has more digits. The reader of
-- heads has one more round than there are bytes, and every line takes at least one. The loops of
-- parse_max_age and parse_vary_headers have as many rounds as their text has bytes, and each moves
-- on by one at least. size_t and uint32_t sums wrap where the sources' do. A flush of a connection
-- reads a list of outcomes of send, and as many as there are bytes to send are enough. A tick has
-- one more round than the heap has nodes, and each round but the last takes one off. In the proxy,
-- a list of outcomes of system calls says what they do up to its end, and then each call would
-- block and each wait times out; the tunnel goes on for as many turns as the list has rounds. In
-- the connections and the server, none says that a list of outcomes is too short. A step relation
-- has no bound on its steps. Timeouts and the differences of clock readings are not cut to the
-- width of an int.
--
-- Not in the library: third_party/llhttp and RocksDB are other projects' libraries,
-- http_cache.pb.* is generated. inet_pton, getaddrinfo, the clock, the callbacks of the timer, the
-- contents of files and the runs of llhttp are parameters. The calls of epoll, fcntl, eventfd and
-- of the sockets are parameters, as functions of their arguments or as lists of outcomes. The text
-- of the usage message, the text that std::format makes of a message's arguments, and the messages
-- that the other parts log are not modelled, and neither is the memory order of the atomics.
-- Notices of condition variables are not modelled: a waiting thread may test its condition at any
-- time. In Server/Clients a drain of the done events works on the queue as it is at its start,
-- with one reading of the clock; Server/Notify has the pops one by one. The kernel gives an
-- accepted client a descriptor that no connection holds, so the place in the table that it fills
-- is taken to be empty: the close of an older handle there is not modelled. A send never raises
-- SIGPIPE in the model.
pub mod Http
pub mod Logger
pub mod Main
pub mod Net
pub mod Os
pub mod Prelude
pub mod Server
pub mod Tests
pub mod Text
pub mod Util
