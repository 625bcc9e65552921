-- ===== src/Tests.antt =====
-- Witnesses and small runs.
mod Texts
mod Quoted
mod Server
mod Membership
mod Handlers
mod Database
mod Contexts
mod Connection
