-- ===== src/Tests.antt =====
-- Runs of the models at concrete inputs.
mod Toy
mod Batch
mod Blobs
mod Prestate
mod Paths
mod Vm
mod Machine
mod Execution
mod History
mod Codes
mod Settled
