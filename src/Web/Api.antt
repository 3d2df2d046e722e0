-- ===== src/Web/Api.antt =====
-- iib/web/api_v1.py: the views that create and change requests, and iib/web/errors.py.
pub mod Args
pub mod Broker
pub mod Submit
pub mod Patch
pub mod Batches
pub mod Routes
pub mod Refusal
pub mod Overwrite
pub mod Grows
pub mod Sound
pub mod Failure
