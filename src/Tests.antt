-- ===== src/Tests.antt =====
-- The theorems at concrete inputs, one module for each part of the program.
mod Api
mod Config
mod Clients
mod Oci
mod Exchange
mod Controller
mod Interleaving
mod System
mod Command
mod Kpctl
mod Promotion
mod Manager
mod Fleet
mod Keeps
mod Speaking
