-- ===== src/Examples.antt =====
-- Concrete inputs on which the theorems of the library are applied.
mod World
mod Codec
mod Drivers
mod Driver
mod Process
mod Options
mod Persistence
mod Sharing
mod Versions
mod Starting
