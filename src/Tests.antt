-- ===== src/Tests.antt =====
-- Runs of the code at concrete lists, and the theorems at inputs where their hypotheses hold.
mod Setup
mod Among
mod Locks
mod Overlay
mod Singleton
mod Transaction
mod Queue
mod Whole
mod Worker
mod SkipList
mod Ranges
mod Manager
