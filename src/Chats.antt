-- ===== src/Chats.antt =====
-- The chat service (backend/services/chat-service/src/modules/chats).
pub mod Send
pub mod Buffered
pub mod Rooms
pub mod Listing
pub mod Pages
