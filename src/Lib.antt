-- ===== src/Lib.antt =====
-- dispatch, a web-based IRC client: the server side, in Go. The server keeps one IRC client for each network
-- of a user (pkg/irc), stores users, networks and channels in a bbolt database (storage/boltdb), and keeps
-- the sessions and live states of the users in memory (server/state.go, pkg/session).
--
-- How the parts interact. `recv` of pkg/irc/conn.go reads lines, parses each with `ParseMessage` and hands
-- the message to `handleMessage`, which updates the channel state, the features, the capabilities and the
-- authentication of the client, writes replies, and passes the message on. `dispatchMessage` of
-- server/irc_handler.go then tells the websockets, updates the live network of the user, and logs messages
-- and events; the replies to LIST become an index that channel searches read. The requests of the web client,
-- server/websocket_handler.go, write to the clients and read the log and the index. The server keeps its
-- networks, channels and messages in the store, and finds a user by the session of a request.
--
-- The files.
--   Base: bytes, lists, numbers, UTF-8, the functions of Go's `strings`, `strconv` and `encoding/base64`
--     that the program uses, maps as association lists, and the outcome of code that can panic.
--   Irc/Const, Message, Casefold, Ctcp, Mode, User, State, Features, Sasl, Client, Negotiation, Handle: the
--     files of pkg/irc. Message is `ParseMessage`; Casefold is case.go; State and User are state.go; Features
--     is feature.go; Sasl and Negotiation are sasl.go and cap.go; Client is client.go and the writers of
--     conn.go; Mode and Handle are internal.go, with `recv` of conn.go in `recv_line`.
--   Irc/Dcc: dcc.go. Irc/Conn: `tryConnect` and the cases of `run` of conn.go.
--   Storage/Bolt: storage/boltdb/boltdb.go, with the message log in Bolt/Messages, its pages
--     in Bolt/Paging, users and sessions in Bolt/Accounts.
--   Storage/History: the log of storage/user.go, over Bolt/Messages: History/Timeline is about `LogEvent`,
--     History/Restart about `LoadUsers`, History/Order about the order of the ids.
--   Storage/Network: storage/network.go. Storage/ChannelIndex: storage/channel_index.go.
--   Server/States: `stateStore` of server/state.go, and the ages of pkg/session/session.go.
--   Server/Live: `State` of server/state.go, each access under its lock and the methods as their sequences.
--     Server/Json: what server/json.go sends.
--   Server/Handler: server/irc_handler.go, with the replies that are collected in Handler/Replies and
--     `dispatchMessage` in Handler/Dispatch; Handler/Params, Bursts and Listing are about these.
--     Handler/Downloads: the offers and the progress of downloads, and the nick that is tried next.
--     Handler/Identd: what the ident server is told of a connection.
--   Server/Websocket: server/websocket_handler.go, and the configuration of `connectIRC` in server/irc.go.
--   Server/Index: server/index_data.go, with the paths of tabs in Index/Tabs.
--   Ident: pkg/ident/server.go.
--   Tests: the theorems at concrete inputs.
--
-- How state and operations correspond. A Go string is a list of bytes. A struct is a record, a method that
-- mutates is a function from record to record, and a mutex makes each operation one step. A map is an
-- association list; the order of its entries stands for the order of one iteration. Channels are kept as the
-- lists of all that was sent on them: `messages`, `changes`, `out`, and `written` for the connection. A
-- run-time panic is the value `panic`. An operation of the model is named as the Go function is, in lower
-- case.
--
-- Bounds and fuel. The loop of `handleSASL` that splits a response runs on the length of the response, which
-- is enough since each round drops 400 bytes; that more rounds change nothing is part of its proof. All other
-- loops run over a list.
--
-- Parameters. The SCRAM conversation, the buckets of bbolt with the keys that a cursor gives while a loop
-- deletes them, the generated encoders of records, the ids of messages, `strings.ToLower`, `sort.Sort`,
-- `hex.EncodeToString`, `url.PathUnescape` and the clock are parameters, with the laws that their
-- documentation gives where a theorem needs them. The JSON of a request is decoded already.
--
-- Not modelled. Other goroutines between the accesses of one method of `State`, and the pause of the ERROR
-- handler before it closes `quit`. The sender of the connection and the waiting between attempts, the HTTP
-- handlers and the page itself, the search in messages, link metadata, generated code, commands,
-- configuration and the JavaScript client.
pub mod Base
pub mod Irc
pub mod Storage
pub mod Server
pub mod Ident
pub mod Tests
