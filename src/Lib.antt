-- ===== src/Lib.antt =====
-- The core of the AnyChat SDK for C++ (core/src), as functions on explicit states.
--
-- The program. A client keeps one WebSocket. `ConnectionManager` decides when it dials, from what
-- the user asked for, the state of the network and what the WebSocket reports; the WebSocket
-- client has retries of its own inside. What arrives is dispatched by `NotificationManager`. What
-- is sent goes through `OutboundQueue`, which keeps each message in a table until the server
-- acknowledges it. After each connection `SyncEngine` asks the server for what has changed and
-- merges it into the tables and into the caches of conversations and of messages. The managers of
-- messages, of conversations and of the account ask the server over HTTP, and keep what it answers
-- and what it notifies in the caches and in the tables. All replies are read with the helpers of
-- json_common.h.
--
-- The files.
--   Prelude       lists and integers over native numbers, tests, texts, dictionaries, sorting
--   Types         core/src/sdk_types.h, core/src/network_monitor.h and the structures of
--                 core/src/notification_manager.h that several components use
--   Connection    core/src/connection_manager.h and .cpp: `ConnectionManager`
--   Outbound      core/src/outbound_queue.h and .cpp: `OutboundQueue`
--   WebSocket     core/src/network/websocket_client.cpp: `WebSocketClient`
--   Cache         core/src/cache/conversation_cache.h, message_cache.h and lru_cache.h:
--                 `ConversationCache`, `MessageCache` and `LruCache`
--   Json          core/src/json_common.h: integers, truth values, times and envelopes
--   Notification  core/src/notification_manager.cpp: `NotificationManager`
--   Sync          core/src/sync_engine.cpp: `SyncEngine`, over the tables of
--                 core/src/db/migrations.cpp and `getMeta` and `setMeta` of core/src/db/database.cpp
--   Http          what the managers hand to core/src/network/http_client.h and to their callers
--   ConversationManager, MessageManager, AuthManager
--                 core/src/conversation_manager.cpp, message_manager.cpp and auth_manager.cpp:
--                 Payloads reads the structures, Rows has the statements, Requests the methods,
--                 Replies what follows a reply, Notifications the handlers; the other files prove
--   Witnesses     the theorems at concrete inputs
--
-- How code and model correspond. The fields of an object are a record, and each method is a
-- function on it that bears the method's name in snake case: `onWsDisconnected` is
-- `on_ws_disconnected`. Calls of collaborators and of callbacks are entries of a log, the newest
-- first. What several threads do is a list of calls in any order, each of them taken as a whole:
-- `Outbound.Run` and the events of `WebSocket`. The handlers of `ConnectionManager` hold no lock,
-- only their fields are atomic: `Connection` is about calls that no other call overlaps, and
-- splits the round of the reconnect thread between its test and its dial, where another thread can
-- act (`timer_check`). A call that may terminate the process returns an option. A clock is an
-- argument. An `int64_t` or `int32_t` is an integer; the increments, the narrowing conversions and
-- the expiry of a token wrap around at the width of the type. A hash map is an association list. A
-- table is the list of its rows. A method of a manager ends with an answer or with a request, and
-- what its closure does with the reply is a function of its own: `getHistory` is `get_history`,
-- `on_history_reply` and, for the second request, `parse_and_return`. A statement that would break
-- a UNIQUE or a foreign key fails and changes nothing, as nobody reads its error. Paths, URLs and
-- tokens are the codes of their characters. Recursion is structural; the digits of a number are on
-- fuel, of which the number itself is enough.
--
-- Parameters. `std::sort` and the ORDER BY of SQLite are any sort (`Sorter`); the JSON reader and
-- writer, the calendar texts of timestamps and the text that SQLite makes of a column are
-- functions given to the model; libwebsockets is the choice of events, as are the HTTP client and
-- the network monitor.
--
-- Not modelled: the managers of friends, groups, users, calls, files and versions, the client that
-- wires the components, the worker thread of the database, the transfers of the HTTP client, the C
-- interface and the packages for other languages. Lists are as long as they need to be: memory does
-- not run out.
pub mod Prelude
pub mod Types
pub mod Cache
pub mod Connection
pub mod Outbound
pub mod WebSocket
pub mod Json
pub mod Http
pub mod ConversationManager
pub mod MessageManager
pub mod AuthManager
pub mod Notification
pub mod Sync
pub mod Witnesses
