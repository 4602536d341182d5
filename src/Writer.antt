-- ===== src/Writer.antt =====
-- The message writer (backend/services/message-writer-service/src/main.ts).
pub mod Handle
pub mod Queue
