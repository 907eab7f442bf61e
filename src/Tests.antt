-- ===== src/Tests.antt =====
-- Runs of the model on concrete inputs, and the theorems at concrete inputs.
mod Wire
mod Text
mod Fields
mod Ints
mod Screens
mod Messages
mod Strings
mod Arrays
mod Decoding
