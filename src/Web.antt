-- ===== src/Web.antt =====
-- iib/web: the REST API, its database and its messages.
pub mod Errors
pub mod Mappings
pub mod Tables
pub mod Request
pub mod Columns
pub mod Session
pub mod Params
pub mod FromJson
pub mod Batch
pub mod Messaging
pub mod Api
