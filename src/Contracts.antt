-- ===== src/Contracts.antt =====
-- libs/contracts: the records that the components exchange.
pub mod Enums
pub mod KnowledgeBase
pub mod Regions
pub mod OnlineEnums
pub mod Tools
pub mod Query
pub mod Routes
