-- ===== src/Cloud.antt =====
-- internal/cloud: the names of databases and roles (Cloud/Names), the interface of the provider
-- that the activities call (Cloud/Provider), and its implementation over Docker (Cloud/Docker).
pub mod Names
pub mod Provider
pub mod Contents
pub mod Journal
pub mod Docker
