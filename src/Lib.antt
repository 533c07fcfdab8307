-- ===== src/Lib.antt =====
-- MoleSwarm, a BitTorrent client and tracker in Go: its wire and file formats (protocol/), the
-- pieces of a torrent, their storage and the sessions that download and serve them (torrent/), and the
-- tracker's announces (tracker/).
--
-- A metainfo file names the content, its pieces' hashes and the tracker. `protocol.Decode` reads it
-- as a bencoded value, `parseMetaInfo` takes the fields out of it, and the info hash identifies the
-- torrent in the peers' handshakes. A torrent keeps its pieces twice over: the session of `Torrent`
-- works on a `PieceSet`, and `fileStorage` with one `piece` each is the same for a worker that
-- verifies and writes. Blocks arrive in `protocol.Piece` messages, a piece that has all its blocks is
-- verified and written to the file, and requests of other peers are served from there. Bit fields tell
-- the peers which pieces are complete.
--
-- A session is changed by the loop of `RunDownload` only. The loop takes the events of the peers
-- (`handlePeerEvent`), the requests to change the mode and the answers of the tracker, one at a time; a
-- peer's message is handled by `handleProtocolMessage`, which asks for missing blocks within a window of
-- 8 requests for each peer and serves what is asked for. A `Client` keeps the torrents of a process by
-- their info hashes and hands a connection that comes in to the torrent that its handshake names.
--
-- The files and the code that they model:
--   Protocol/Bencode      protocol/bencode.go: values, `Decode` (Bencode/Decoder), `Encode`
--                         (Bencode/Encoder)
--   Protocol/Message      protocol/message.go: `ReadMessage`, `WriteMessage`
--   Protocol/Handshake    protocol/handshake.go: `ReadHandshake`, `WriteHandshake`
--   Protocol/Metainfo     protocol/metainfo.go: `ReadMetaInfo`, `ParseInfo`, `EncodeMetaInfo`
--   Torrent/Piece         torrent/piece.go: the states of one piece
--   Torrent/Bitfield      torrent/peer.go, torrent/pieces.go: bit fields
--   Tracker/Request       tracker/announce.go: the parsing of announce requests
--   Tracker/Announce      tracker/announce.go: responses, in the full and the compact form
--   Tracker/Server        tracker/server.go: swarms, `announce`, `pruneSwarmLocked`
--   Torrent/PieceSet      torrent/pieces.go: `PieceSet`; the operations that read and write the file are
--                         in PieceSet/Content
--   Torrent/Session       torrent/torrent.go, torrent/peer.go: `Torrent`, `peer`; Session/Pending the
--                         map of pending requests, Session/Transfer torrent/transfer.go,
--                         Session/Peers torrent/peers.go and the messages of a peer,
--                         Session/Reading `readLoop`, Session/Status torrent/status.go, Session/Mode
--                         `changeDownloadMode`, Session/Lifecycle and Session/Loop torrent/run.go and
--                         torrent/discovery.go
--   Torrent/FileStorage   torrent/file.go: the pieces and the file; the operations that read and
--                         write the file are in FileStorage/Content
--   Client                client/client.go, client/management.go: the registry of torrents, the
--                         connections that come in
--
-- A stream is the list of the bytes that it still has, and bytes are numbers below 256. A Go error is
-- a constructor of the component's own error type, without its text. State that a method changes is
-- an argument and a part of the result. Fixed-width arithmetic keeps its wrap-around where it can
-- happen; `int64` fields are integers.
--
-- The decoder recurses on fuel, which starts at twice the length of the input
-- plus one and is enough for every input. The nesting limit of 100 is the source's own.
--
-- The tracker keeps a swarm of peers for each torrent and answers an announce with others of them. Its
-- maps are association lists, in the order in which a loop runs over them.
--
-- A method of a session is an action (Base/State): from a session to a result and the session after it,
-- which keeps what was changed before a failure. A `*peer` is a number and the session holds the table
-- of the objects. What the session takes from outside is the record `World`: files, connections, the
-- order in which a loop runs over a map, and whether the queue of a peer has room at the n-th attempt
-- to send, so that every interleaving with the goroutine that empties the queue is covered. A panic, also
-- one of a read beyond a slice while a message is decoded, and
-- the end of the fuel are failures that no handler catches. The loop that fills a peer's window has
-- fuel 9, for 8 requests and the last test.
--
-- Parameters: `sha1.Sum` is a function on byte lists, and the operating system's file is a record of
-- functions (`Disk`), with one law on reading a part of what can be read (`DiskLaws`).
-- The addresses of `netip` are a record too (`Netip`, `NetipLaws`), and the query of a URL and
-- `strconv.ParseUint` are functions.
--
-- Not modelled: sockets, goroutines, channels, contexts and locks, `Close` of a torrent that runs, the
-- listener of client/ and the command lines, and errors of readers and writers other than the end of the
-- stream; of tracker/server.go, `ServeHTTP` and the snapshots.
pub mod Base
pub mod Protocol
pub mod Torrent
pub mod Tracker
pub mod Client
