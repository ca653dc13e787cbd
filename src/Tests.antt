-- ===== src/Tests.antt =====
-- The theorems at work on small databases.
mod Log
mod Tables
mod Filter
mod Merging
mod Shared
mod Metadata
mod Terms
mod Trees
mod Stored
mod Closing
mod Database
mod Joined
mod Sorted
mod Queries
mod Pages
mod Tokens
