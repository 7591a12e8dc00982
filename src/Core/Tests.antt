-- ===== src/Core/Tests.antt =====
-- Runs of the core library at concrete inputs.
mod Ranges
mod Databases
mod Nibbles
mod Hex
mod Codings
mod Tries
