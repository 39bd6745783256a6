-- ===== src/Lib.antt =====
-- Metro Network Monitor: the transport network, the STOMP client and server, and the network monitor.
--
-- The program follows the passengers of a metro network. The network (include/transport-network.h,
-- src/transport-network.cpp) holds stations, lines, routes and travel times, counts the passengers at
-- each station, and finds the fastest and the most quiet travel route between two stations. The network
-- monitor (src/network-monitor.cpp) receives passenger events from a STOMP client, records them in the
-- network, and answers requests for quiet routes through a STOMP server (include/network-monitor.h).
--
-- What is modelled, by file:
--
-- Base and its children: Boolean tests, lists, association lists for `std::unordered_map`, strings of
-- bytes, and signed integers over the native numbers. `unsigned int` is a number below 2^32 with its
-- sums taken modulo 2^32 (`add_u32`).
--
-- Network/Types: the structs. The network is one record with a heap for each type of object: a
-- `shared_ptr` is an address, and the heap is a function from addresses to objects with the count of the
-- objects allocated. `Outcome` is how a method ends: it returns, throws, or has undefined behaviour; its
-- last constructor is a loop of the model without fuel.
-- Network/Build: `GetStation`, `GetLine`, `GetRoute`, `AddStation`, `AddLine` and `AddRouteToLine`.
-- Network/Passengers: `RecordPassengerEvent`, `GetPassengerCount`, `SetNetworkCrowding`.
-- Network/Times: `SetTravelTime`, both `GetTravelTime`, `FindEdgeForRoute`.
-- Network/Serving: `GetRoutesServingStation`.
-- Network/WellFormed: the invariant of the network, with the lemmas for each write and each operation
-- below it. Network/Counts is about the passenger counts, Network/Adjacent about travel times, and
-- Network/Stations about a station that is added.
--
-- Search/Stops: `PathStop`, `PathStopDist`, `Path`. Search/Queue: what is assumed of
-- `std::priority_queue` and `std::sort`, as the records `PopRule` and `SortRule` that the searches take.
-- Search/Dijkstra: the internal `GetFastestTravelRoute`, with its loop on fuel. Its children hold the
-- walks of the network and their cost (Walks, Trails), the measure of the loop (Loop), and the proof in
-- the order Optimal, Sound, Chains, Linked, Correct, Links, Paths.
-- Search/Fastest: the public `GetFastestTravelRoute`.
-- Search/Alternatives: `GetFastestTravelRoutes`. Search/Quiet: `GetPathCrowding` and
-- `GetQuietTravelRoute`; the operations on `double` are parameters. Quiet/Crowding and Quiet/Quietest are
-- about the crowding of a path and the choice among the paths.
--
-- Stomp/Commands, Stomp/Headers, Stomp/Errors: the enumerations of include/stomp-frame.h and their
-- tables of strings. Stomp/Parse: `StompFrame::ParseFrame`, where a position in the text is the list of
-- the bytes that follow it. Stomp/Frame: `StompFrame`, its constructors and `ValidateFrame`. Stomp/Ends,
-- Stomp/Valid and Stomp/RoundTrip are about how the parser ends, about frames made without an error, and
-- about the text that a frame is composed of.
--
-- Stomp/Decimal: `std::to_string` of a size. Stomp/Compose: the frame made from its parts, where the
-- order of the headers in their `std::unordered_map` is the parameter `HeaderOrder`.
-- Stomp/ServerErrors, Stomp/ClientErrors, Monitor: the errors of the STOMP server, the STOMP client and
-- the network monitor, with their strings.
--
-- Stomp/Server: the state of `StompServer` (include/stomp-server.h) and its effects: what a handler asks
-- of the WebSocket server, and the callbacks of the user that it posts. Server/Handlers: `OnWs...`,
-- `HandleStomp`, `HandleSend`, `CloseConnection`, `MakeErrorFrame`. Server/Requests: `Run`, `Send`,
-- `Close`, `Stop`. `GenerateId` is a function from the count of the IDs generated so far. Server/Moves:
-- what the handlers may do to the state, as a relation. Server/Consistent: the two maps against each
-- other. Server/Life: the life of a connection, and what the user is told. Server/Runs: the callbacks and
-- the requests in any order; a WebSocket session is announced once.
-- Stomp/Client: `StompClient` (include/stomp-client.h) in the same way, with Client/Handlers and
-- Client/Requests. Stomp/Session: a client and a server over one session: Parts and Frames are about the
-- frames that they make, Connecting, Sending and Closing about what passes between them.
--
-- Json: what is used of nlohmann/json, as the record `Json`; its laws are `ReadsBack`. Network/Json: the
-- conversions and `FromJson`, which leaves a network also when it throws. Json/Layout has the calls that a
-- layout of the network stands for and its JSON, and Json/Loading what `FromJson` does with it.
-- WebSocket: the error codes of Boost and the effects of the wrappers of Boost.Beast. WebSocket/Client:
-- `WebSocketClient` (include/websocket-client.h), WebSocket/Session and WebSocket/Server:
-- `WebSocketSession` and `WebSocketServer` (include/websocket-server.h). Client/Connecting is about the
-- chain of the handlers that connect, WebSocket/Reads, Client/Reading and Session/Reading are about reads.
-- The STOMP client and server ask these wrappers for their effects.
--
-- Files: `DownloadFile` and `ParseJsonFile` (src/file-downloader.cpp), over the answers of libcurl and of
-- the file system.
-- Monitor/State: the members of `NetworkMonitor` (include/network-monitor.h) and the libraries that it
-- uses. Monitor/Configure: `Configure`. Monitor/Handlers: the handlers. Monitor/Callbacks: which handler
-- a posted callback runs. Monitor/Networks, Monitor/Replies, Monitor/Events and Monitor/Subscribing are
-- about its network, a quiet-route request, a passenger event and the subscription to the events.
--
-- Examples: concrete rules, a small network and the theorems at it.
--
-- Bounds and fuel: a push of the search lowers the distance recorded for a stop, there is one stop for
-- each edge and one for the start, and a distance is below 2^32, so (edges + 2) * 2^32 + 1 rounds are
-- enough. The walk back visits no stop twice, so the number of recorded distances is enough fuel for it.
-- Each header line takes bytes from the text, so its length is enough fuel for the loop over them.
-- Where least costs are compared, the travel times are bounded so that a walk over each edge once stays
-- below 2^32 (`IsSmall`).
--
-- Not modelled: Boost.Beast itself, whose operations are effects and whose completions are the calls of
-- the handlers; the I/O context, of which a posted callback is one step; the environment and the main
-- program; the hash of a stop, since a map compares keys by equality; the log; the bound of
-- `long long int` and of `int` on the passenger counts. The certificates and the ports are only passed to
-- libraries.
pub mod Base
pub mod Network
pub mod Search
pub mod Stomp
pub mod WebSocket
pub mod Files
pub mod Json
pub mod Monitor
pub mod Examples
