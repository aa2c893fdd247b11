-- ===== src/Daemon.antt =====
-- What nscde_pagerd and nscde_toplevel share: the array of the compositor's objects with its count,
-- the commands from the FIFO, the paths and the lines that are published.
pub mod Slots
pub mod Lines
pub mod Commands
pub mod FilePaths
