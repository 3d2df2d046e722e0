-- ===== src/Workers/Build.antt =====
-- iib/workers/tasks/build.py: the tasks that add bundles to an index image and remove operators from
-- one.
pub mod PullSpec
pub mod Image
pub mod Registry
pub mod Present
pub mod Opm
pub mod Overwrite
pub mod Update
pub mod Add
pub mod Rm
