-- ===== src/Tests.antt =====
-- Runs of the theorems at concrete inputs: a module for each part of the code.
mod Packets
mod Workers
mod Hashes
mod Entries
mod Connections
mod Checks
mod Policies
mod Versions
mod Groups
mod Challenges
mod Sessions
mod Cores
mod Networks
mod Journals
mod Puzzles
