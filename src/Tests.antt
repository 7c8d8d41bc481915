-- ===== src/Tests.antt =====
-- Runs of the models on concrete inputs, and the theorems at them.
mod Business
mod Admissions
mod Controls
mod Retries
mod Graphs
mod Compilers
mod States
mod Turns
mod Calls
