-- ===== src/L4lb.antt =====
-- The load balancer of l4lb: the lookup table, the driver around it, the maps of the XDP program and
-- the command.
pub mod Prime
pub mod Table
pub mod Driver
pub mod Dwarf
pub mod GenBindings
pub mod Link
pub mod Main
pub mod Bind
pub mod Bindings
pub mod Cmd
mod Tests
