-- ===== src/Lib.antt =====
-- A BitTorrent client: it reads a torrent file, finds peers through trackers and through a
-- Kademlia DHT, and exchanges pieces with them. Peer threads share the piece manager, which says
-- what to download and checks what came against the SHA-1 of the torrent before it goes to the
-- disk. The DHT thread keeps a routing table of nodes, runs lookups over it, and stores the peers
-- that other nodes announce with a token.
--
-- The parts, the files here that model them, and the code:
--   ByteOrder, InfoHash, PeerAddress: inc/byte_order.h, inc/info_hash.h, inc/peer_address.h and
--     src/peer_address.cpp. PeerAddress.Compact is the form of six bytes, with `inet_aton` and
--     `inet_ntoa` as an interface, whose laws are those that POSIX documents.
--   Bencode: inc/bencode, src/bencode. Types are the values, with a dictionary as a sorted
--     association list; Encoder and Parser have a function for each of the code's. The parser's
--     state is its position and the bytes that are left. A call takes a byte or is followed by one
--     that does, so that its fuel, two calls for a byte and one more, is enough (Parser/Fuel).
--   PeerWire.Handshake, PeerWire.Message: src/peer_wire/peer_message.cpp. A read outside of the
--     buffer is an error of its own, `bad_access`, which no exception of the program is.
--   PeerWire.Pieces: src/peer_wire/piece_manager.cpp. The record holds the fields of the class and
--     the contents of the disk; every method is one step. The disk writer is an interface of two
--     operations, Pieces/Serving has the laws that the piece manager relies on, and
--     Pieces/RoundTrip is about a download and the requests behind it.
--   PeerWire.Disk: src/peer_wire/disk_writer.cpp. The files of a torrent are a list of optional
--     contents, in the order of the layout. Splice has the laws of a write at an offset, Flat reads
--     the files as one string of bytes, Setup is about the constructor, and Reliable fills the
--     interface of the piece manager.
--   PeerWire.Connection: src/peer_wire/peer_connection.cpp. State has the fields and what is sent,
--     Requests the pipeline of block requests, Handlers a function for each message, and the loop
--     of `run` over a list of received messages. A handler is given the piece manager and hands
--     it on.
--   PeerWire.TorrentManager: src/peer_wire/torrent_manager.cpp, the peers of a torrent and the
--     threads that work on them. A thread is its peer and how far `run_peer_worker` has come.
--     Spawning is about the loop that starts workers, which has fuel for the forty that may run,
--     Workers about the steps of one, and Reach has the methods as a step relation.
--   LruCache: inc/lru_cache.h. The list of nodes, most recently used first, is the index too.
--   Dht.NodeId, Dht.RoutingTable, Dht.KademliaLookup, Dht.PeerStore, Dht.Announce, Dht.Token: the
--     files of these names in src/dht and inc/dht (dht_peer_store, announce_coordinator,
--     token_secret_rotator). The peer store keeps LRU caches of LRU caches. The clock is an
--     argument of the operations.
--   Dht.CompactNode, Dht.Krpc: src/dht/krpc.cpp, and the compact form in src/dht/routing_table.cpp.
--     The builders and the parser of the messages; Krpc/Messages has all builders as one data type.
--   Dht.LookupManager: src/dht/get_peers_lookup_manager.cpp. The maps are association lists; Steps
--     has how a lookup goes on, Reach the public methods as a step relation, and Bounds, Start, Once
--     and Expiry are about what they do.
--   Dht.DhtClient: src/dht/dht_client.cpp. The components are fields of the client, and what it
--     sends and reports is a list. Handlers dispatches a message to the handler of its kind; Kept
--     lifts what the components' operations keep to every message.
--   Torrent: src/torrent_file.cpp, the constructor over the parsed dictionary and the layout of the
--     files; Torrent.Tracker is the URL of a tracker, and Torrent.Layout joins the sizes with the
--     constructor of the disk writer.
--   Trackers.Udp: src/trackers/udp_tracker_communicator.cpp. The packets, and the exchange over the
--     nine attempts of a phase, with the datagrams that come back as an argument.
--   Trackers.Http: src/trackers/http_tracker_communicator.cpp, with `url_encode` of inc/crypto.h. What
--     the addresses of a tracker answer to a request is an argument; Reply is about the header of a
--     reply, Exchange about an announce, Url about the encoding, and Scrape has the scrape.
--   Common: numbers, lists, results, bits, decimal text and byte strings, for all of them.
--   Tests: every theorem at a concrete input.
--
-- Machine words are natural numbers; where the code's arithmetic can leave its 32 or 64 bits the
-- model takes the remainder. An exception is an `err`, with its class and without its text, and
-- a state that is changed in place comes back beside the result. Loops recur on their range.
--
-- Parameters, for code outside of the repository: SHA-1, the random numbers, the bytes and the text
-- of an IP address, the clock. Not modelled: sockets, TLS, UPnP, threads and locks (a method of a
-- class that locks runs as one step), logging, the display's statistics; the start, the bootstrap
-- and the saved table of the DHT client and its refresh of buckets; directories and a full
-- disk, and the session manager.
pub mod Common
pub mod ByteOrder
pub mod PeerWire
pub mod InfoHash
pub mod Bencode
pub mod LruCache
pub mod Dht
pub mod PeerAddress
pub mod Trackers
pub mod Torrent
mod Tests
