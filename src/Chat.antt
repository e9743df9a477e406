-- ===== src/Chat.antt =====
-- backend/src/chat: the conversations that answer from the documents.
pub mod Domain
pub mod Repository
pub mod Schemas
pub mod Prompts
pub mod Service
pub mod History
pub mod Keeping
pub mod Completing
pub mod Answers
pub mod Runs
pub mod Citing
