-- ===== src/Tests.antt =====
-- Runs of the development's theorems at concrete inputs.
mod Storing
mod Loading
mod Serving
mod Routing
mod Pages
mod Processes
