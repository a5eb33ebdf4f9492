-- ===== src/Assistant.antt =====
-- app/assistant: a conversation with a language model that may call tools on the inventory.
pub mod Tools
pub mod Answering
pub mod Usage
pub mod Chat
pub mod Bounds
pub mod Settling
