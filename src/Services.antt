-- ===== src/Services.antt =====
-- services: the processes of the online plane.
pub mod Api
