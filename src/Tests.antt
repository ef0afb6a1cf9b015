-- ===== src/Tests.antt =====
-- The theorems applied to concrete inputs.
mod Buffers
mod Pages
mod Bytes
mod Versions
mod Files
mod Trees
mod Objects
mod Tuples
