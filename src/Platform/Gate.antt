-- ===== src/Platform/Gate.antt =====
-- libs/platform/src/chatbot_platform/gate.py: the checks of the quality gate, and the gate on the
-- registry.
pub mod Checks
pub mod Runs
pub mod Approval
pub mod Passing
pub mod Stale
