-- ===== src/Memory.antt =====
-- The memory vault: src/assistant/tools_sdk/_memory_core.py and the tools on it in
-- src/assistant/tools_sdk/memory.py.
pub mod Paths
pub mod Frontmatter
pub mod Index
pub mod Vault
pub mod Untrusted
pub mod Tools
mod Examples
