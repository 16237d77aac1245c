-- ===== src/Common.antt =====
-- libs/common/src/chatbot_common: what the services and workers share.
pub mod Events
pub mod Client
pub mod Rerank
pub mod Models
