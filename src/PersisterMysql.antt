-- ===== src/PersisterMysql.antt =====
-- services/persister-mysql/main.go: entities as rows of a table for each entity type.
pub mod Names
pub mod Sql
pub mod Table
