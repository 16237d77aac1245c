-- ===== src/Platform/Versioning.antt =====
-- libs/platform/src/chatbot_platform/versioning.py: knowledge base versions.
pub mod Candidate
pub mod Publish
