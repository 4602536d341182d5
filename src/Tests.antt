-- ===== src/Tests.antt =====
-- The theorems at concrete inputs, and runs of the operations.
mod Data
mod Batches
mod Clients
mod Stores
mod Chats
mod Sockets
mod Accounts
mod Redis
