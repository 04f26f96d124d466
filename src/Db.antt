-- ===== src/Db.antt =====
-- src/deska/db: the data types of the database API and the clients' side of it.
pub mod Objects
pub mod Command
pub mod Modification
pub mod Exec
pub mod Revisions
pub mod Filter
pub mod MacAddress
pub mod Caching
