-- ===== src/Controller.antt =====
-- services/controller.
pub mod Activity
pub mod Db
pub mod Health
pub mod Server
