-- ===== src/Examples.antt =====
-- Runs of the definitions on concrete inputs, and the theorems at inputs that meet their hypotheses.
mod Buffers
mod Lists
mod BlockFile
mod Database
mod Deletions
mod Collisions
mod Requests
mod Stages
mod Collect
mod Index
mod Sockets
mod Monitoring
mod Binding
