-- ===== src/Llm.antt =====
-- backend/src/llm: the proxy to the language models, which bills every call.
pub mod Profiles
pub mod Gateway
pub mod Service
pub mod Catalog
pub mod Billing
pub mod Completion
