-- ===== src/Tests.antt =====
-- Runs on concrete states, and the theorems applied to them.
mod Endpoints
mod Console
mod Lines
mod Allocation
mod Sample
mod FrameTable
mod Faults
mod Waits
mod Heap
mod Machine
mod Running
mod Semaphore
mod Runs
mod Calendar
