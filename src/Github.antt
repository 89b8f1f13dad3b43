-- ===== src/Github.antt =====
-- services/collector-github: the collector of GitHub repositories, issues and packages.
pub mod Spec
pub mod IssueCache
pub mod IssueList
pub mod Packages
