-- ===== src/Web/FromJson.antt =====
-- The `from_json` methods of iib/web/models.py: from a payload to a new request in the session.
-- What they share stands here, each request type in a child.
pub mod Index
pub mod Add
pub mod Rm
pub mod Regenerate
pub mod Merge
pub mod Quiet
pub mod Overwrite
pub mod Sound
