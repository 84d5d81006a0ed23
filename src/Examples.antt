-- ===== src/Examples.antt =====
-- Tests of the models at concrete inputs, one module for each part of the program.
mod Access
mod Tunnel
mod Files
mod Advice
mod Service
mod Hosts
mod Catalogs
