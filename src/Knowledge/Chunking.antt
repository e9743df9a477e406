-- ===== src/Knowledge/Chunking.antt =====
-- backend/src/knowledge/chunking: options and inputs. A text is the list of its characters, so that
-- its length is what `len` counts.
pub mod Registry
pub mod Base
pub mod Strategies
pub mod Blocks
pub mod Merging
pub mod Windows
