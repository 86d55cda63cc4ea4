-- ===== src/Tests.antt =====
-- Runs on concrete tables, and the theorems applied to them.
mod Tables
mod Sets
mod Texts
mod Commands
mod Lists
mod Servers
mod Keyed
mod Sessions
mod Singles
