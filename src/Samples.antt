-- ===== src/Samples.antt =====
-- Runs and applications on concrete inputs of the definitions that model src/grafast_py.
mod Planning
mod Caching
mod Ordering
mod Paging
mod Running
mod Remapping
mod Cursors
mod Arguments
mod Completing
mod Loads
mod Rewriting
mod Delivering
mod Sharing
mod Stuck
