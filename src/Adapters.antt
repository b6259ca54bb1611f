-- ===== src/Adapters.antt =====
-- adapters/: the implementations of the ports that talk to vendors.
pub mod Openai
