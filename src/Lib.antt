-- ===== src/Lib.antt =====
-- A BitTorrent client's transport layer (src/Client) and its bencode library (src/Bencoder).
--
-- How the parts meet: a torrent file, read through the bencode decoder, gives the tracker service
-- its urls; the tracker side hands peer addresses to the connection manager, which keeps the
-- newest of them in an overwritable cache, takes a slot for each from a recycling pool, connects,
-- and exchanges handshakes over a pair of byte rings; a peer whose handshake is accepted goes to
-- the transfer side by a queue between threads.
--
-- Files:
--   * Base (and its children): shared names, lists measured by native numbers, tests, 64-bit
--     size_t arithmetic, option chains.
--   * Bits (and its children): the bit operations by their lowest digit, and single bits of a
--     word.
--   * Window: the elements of an array from an index on, going round at its end; copies into
--     arrays.
--   * RingBuffer: src/Client/io_ring_buffer.hpp. A pointer is an offset into the array.
--     RingBuffer/Fifo has the invariant and the queue, RingBuffer/Regions the iovecs,
--     RingBuffer/Filling copies that go round the end.
--   * Handshake: src/Client/bittorrent_messages.hpp, encode and decode. Handshake/Encode and
--     Handshake/Decode state what they do; Handshake/Verdict and Handshake/Wrap follow the
--     decoder through its rounds.
--   * OverwritableCache: src/Client/overwritable_cache.hpp, with its double-ended queue in
--     OverwritableCache/Deque.
--   * SlotPool: src/Client/slot_pool.hpp. A slot pointer is an index; SlotPool/Ownership has
--     the invariant.
--   * SpscQueue: src/Client/spsc_queue.hpp. SpscQueue/Threads has the two threads as steps, a
--     call in two parts split at its store; SpscQueue/Indices, SpscQueue/Moves and
--     SpscQueue/Order have the invariant over any interleaving.
--   * DynamicBitset: src/Client/DynamicBitset, its words as numbers below 2^64;
--     DynamicBitset/Laws says what test reads after set and reset, DynamicBitset/Combining
--     after |= and &=.
--   * Peer: src/Client/PeerManagerTypes. Peer/Socket is peer_nonblock_tcp over the system's
--     answers, each call's given as a list, since EINTR is tried again; Peer/Connection is
--     PeerConnection and Peer/Session is PeerSession; Peer/Transfer states what send and recv
--     do to the rings.
--   * Manager: src/Client/PeerConnectionManager and PeerCErrnoHandler. Manager/State has the
--     state, the counters and the steps; Manager/Connecting starts and ends connections;
--     Manager/Scheduler has the three handlers and Manager/RoundRobin their loop;
--     Manager/Callbacks has the socket and timer callbacks, Manager/Accept the accepted
--     connections and Manager/Server the start of the listening socket. What is proved of them
--     stands in Manager/RoundRobin/Rounds over the turns of Manager/RoundRobin/Turns and the
--     marks of Manager/RoundRobin/Marks, Manager/Dispatching, Manager/GivingUp,
--     Manager/Inflight, Manager/Accounting, Manager/Starting, Manager/Discoveries,
--     Manager/Greeting and the children of Manager/Accept.
--   * Bencode: src/Bencoder. Bencode.antt has the value type of Bencode.hpp and Bendata.cpp,
--     Bencode/Decode the decoders of Bendecoders.cpp on the reads of Bencode/Stream and the
--     numbers of Bencode/Decimal, Bencode/Encode the encoders of Benencoder.cpp, Bencode/Show
--     operator<<, and Bencode/Find a map's find. Bencode/Order has the order of a map's keys;
--     Bencode/Progress and Bencode/Fuel show that the decoders end, Bencode/Shape and
--     Bencode/Printing what a decoded value is like, Bencode/Encoded, Bencode/Steps and
--     Bencode/RoundTrip the round trip, and Bencode/Short a string that ends early.
--   * Tracker: src/Client/Tracker.cpp and TrackerManager. Tracker.antt has the two records;
--     Tracker/Url the host names and the urls of a tracker, Tracker/Space the vector of
--     pointers and populate_manager_space, Tracker/Response do_on_success and do_on_failure,
--     Tracker/Announce the request's url, Tracker/States the state functions and the public
--     calls, and Tracker/Events one step of the service, with two callbacks of
--     src/Client/HTTPHandler.cpp. Tracker/Quiet, SingleTimer, Starting, Rounds and Reannounce
--     have the invariant over every event; Tracker/Seek, Making and Populate the search for an
--     http url, Tracker/Grouping the trackers of a list of urls by host, Tracker/Growth and
--     Dangling the pointers into the vector as start_state leaves it, Tracker/Failures the
--     retry times, and Tracker/Stale the bytes of a second answer.
--   * TorrentFile: src/Client/TorrentFile, the constructor and the queries on the bencode
--     values; a file is its bytes, and SHA-1 is an argument. TorrentFile/Metainfo follows a
--     file that the encoders wrote, and TorrentFile/Trackers takes its urls to the trackers
--     that the manager makes of them.
--   * Hasher: src/Client/Hasher, FNV-1a on 64 bits and the two printers of a hash.
--   * TcpBuffer: src/Client/TCPRingBuffer(invalid).hpp, which nothing includes.
--     TcpBuffer/Counts has its indices and what they count, TcpBuffer/Commits its commits as
--     those of RingBuffer, and TcpBuffer/Same the comparison.
--
-- The tracker service is a state whose steps have no result where the source is undefined (a null
-- or a dangling pointer, a read past an array), throws what nothing catches, or does not end. A
-- pointer into manager_space is the number of the vector's allocation and an index; it can be
-- written through only while that allocation is the present one. How a full vector grows is a
-- field of the environment, with libcurl's curl_escape and the client id. The messages on the
-- standard streams are left out everywhere.
--
-- The manager is a state and a small monad of steps whose result may be missing (a failed
-- assertion, or a retried call that still runs). A peer is the index of its slot. Each system
-- call takes its answer from the environment by its number in the run; the increment that
-- src/Client/PeerConnectionManager.hpp declares and nothing defines is a field of the environment
-- too. In the manager a queue between threads is the list of what has been pushed and not yet
-- popped, and a watcher is whether it runs and for what; libev's own loop is the order in which
-- the callbacks are applied.
--
-- Fuel: the scheduler's loop has 108, three turns for each of 35 starts and three more, which is
-- shown to be enough. The search for an http url has one round more than the tracker has urls,
-- which is shown to be enough. The decoders of a file of n bytes have 3n + 3, which is shown to
-- be enough: each round reads a byte or fails. The loop over the cache takes an address off each
-- round, so the number of cached addresses bounds it. The loop of the server socket's callback
-- says whether it has ended: the system may answer with aborted connections for ever.
--
-- Conventions: size_t sums and differences wrap at 2^64 as written out by add_size and sub_size.
-- A template parameter is a plain argument. An assertion is either modelled (SlotPool, with
-- NDEBUG as an argument) or is a hypothesis of the theorems.
--
-- Not modelled: the libcurl and libev glue of HTTPHandler, the random number wrappers,
-- declarations without bodies (BTProtocol, PeerManager, FileManager), and the test programs.
pub mod Base
pub mod Bits
pub mod Window
pub mod RingBuffer
pub mod Handshake
pub mod OverwritableCache
pub mod SlotPool
pub mod SpscQueue
pub mod DynamicBitset
pub mod Peer
pub mod Manager
pub mod Bencode
pub mod Tracker
pub mod TorrentFile
pub mod Hasher
pub mod TcpBuffer
