-- ===== src/Rss.antt =====
-- services/collector-rss: the collector of feeds.
pub mod Spec
pub mod Items
pub mod Entity
pub mod Run
