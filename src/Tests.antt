-- ===== src/Tests.antt =====
-- Runs of the models on concrete inputs, and the theorems at inputs that meet their hypotheses.
mod Samples
mod Keys
mod Requests
mod Payloads
mod Patches
mod Submissions
mod Calls
mod Worker
