-- ===== src/MessageWrites.antt =====
-- The writer's processor
-- (backend/services/message-writer-service/src/modules/message-writes/message-write.processor.ts).
pub mod Dedupe
pub mod Created
pub mod GivenUp
pub mod Insert
pub mod Persist
pub mod Dead
pub mod Process
pub mod Rooms
pub mod Invariant
pub mod Batch
pub mod Replay
pub mod Redelivery
pub mod Outbox
pub mod Status
