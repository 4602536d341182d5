-- ===== src/Lib.antt =====
-- The messaging backend: how a message that a user sends is accepted, written, numbered and told to
-- its room; who is online; and whose account it is.
--
-- A message takes one of two ways. The chat service writes it at once (`createMessage`), or accepts
-- it by putting a write command into a stream (`createBufferedMessage`). The message writer takes the
-- commands of the stream in batches, writes each batch in one transaction, and then drains an outbox
-- table, whose rows it publishes to the rooms. The realtime service limits what a socket may
-- send, hands it to the stream, and tells the sockets of a room what was published. Several instances
-- of it share who is online, and the events of the rooms, through Redis. The user service keeps the
-- accounts.
--
-- Files, and the code that they model:
-- - Prelude: lists over the native numbers, Boolean tests, a `Map` as an association list in
--   insertion order, results of code that throws.
-- - Db: the tables of backend/prisma/schema.prisma as lists of rows, in one record `Db`.
-- - Api, RoomEvents: backend/packages/shared-types/src/api-types.ts,
--   backend/packages/shared-errors/src/app-error.ts and the event of
--   backend/packages/shared-redis/src/message-events.ts.
-- - Nats: the retries and the in-memory buffer of
--   backend/packages/shared-nats/src/message-write-buffer.ts.
-- - MessageWrites: message-write.processor.ts of
--   backend/services/message-writer-service/src/modules/message-writes. Dedupe, Insert, Persist and
--   Process are `processMessageWriteCommands`, one function for each statement of the transaction;
--   Dead is `markMessageWriteCommandDead`; Outbox is `drainMessageOutbox`. Invariant states when the
--   tables are valid; Batch, Created, Redelivery and Status use it. GivenUp is about a command whose
--   last delivery fails.
-- - Writer: backend/services/message-writer-service/src/main.ts. Handle is `handleMessageBatch` and
--   what it calls, on a processor that is an interface (a record of its calls); Queue is the queue
--   of batches, as a step relation.
-- - Accounts: backend/services/user-service/src/modules. The rows and the rules of the fields, Auth
--   (`register`, `login`, `refresh` of auth/auth.service.ts) and Users (users/users.service.ts); Http
--   is the middleware of backend/packages/shared-auth/src/auth-middleware.ts and of
--   backend/packages/shared-errors/src/error-middleware.ts. Auth/Laws, Tokens, Failures and Profiles
--   hold what is proved of them.
-- - Redis: the in-memory client of backend/packages/shared-redis/src/fake-redis.ts, with the texts of
--   numbers in Numerals and lemmas in Entries and Sets. On it stand Presence (presence.ts), Cache
--   (idempotency.ts), Events (message-events.ts), and Counter for the limiter of RateLimit.
-- - Chats: `createMessage` (Send), `createBufferedMessage` (Buffered), `createChat` (Rooms),
--   `listChats`, `getChat`, `getChatMembers` and `sendTyping` (Listing) and `getMessages` (Pages) of
--   backend/services/chat-service/src/modules/chats/chats.service.ts, with the rows they read and
--   write in chats.repository.ts beside it.
-- - Realtime: `InMemoryPresenceStore` of
--   backend/services/realtime-service/src/modules/realtime/realtime.service.ts, with lemmas in Sockets;
--   Registry and Online state what the store says of connections. Frames, Fanout, Server
--   and Setup are realtime.server.ts beside it: the frames, the broadcasts, the handlers of a
--   connection run without a break, and its acceptance and set-up. Turns cuts the handlers at their
--   awaits, so that the turns of all connections interleave, each with its own clock and tables.
-- - RateLimit: Local is the in-process limiter of
--   backend/services/realtime-service/src/modules/realtime/realtime-rate-limit.ts; Shared is the one
--   on Redis of backend/packages/shared-redis/src/rate-limit.ts, and the choice between them.
-- - Tests: the theorems at concrete inputs.
--
-- Conventions. A transaction that throws leaves the tables alone, so an error comes without new
-- tables. The row locks of a transaction are modelled by its being one step. A time is a number of
-- milliseconds. The clock, generated identifiers, md5, SHA-256, the order of texts in the database,
-- what a publisher answers, the hash of a password, tokens and JSON are arguments. Texts are compared
-- as lists of characters, and `slice` counts characters. Sizes, limits and delays are natural numbers, without upper bound, as the source
-- keeps them far below 2^53.
--
-- Fuel: `handle_within` recurses on the two halves of a batch with one unit less. A batch of n
-- messages gets n + 1 units, which suffices since each half of a batch that is split is shorter. The
-- digits of a number n are found with n + 1 units, which suffices since a tenth of n is less than n.
--
-- Not modelled: the connections to the database, to a Redis server and to the stream, which are
-- libraries; logs, latencies and the periodic snapshot; the routes, which only call the services; the
-- timers of a connection, and what its listeners do where a Redis holds the presence. A negative
-- limit of a page is left out, as are bodies of a request that are no object.
mod Prelude
pub mod RateLimit
pub mod Db
pub mod Api
pub mod RoomEvents
pub mod Nats
pub mod MessageWrites
pub mod Writer
pub mod Accounts
pub mod Redis
pub mod Chats
pub mod Realtime
mod Tests
