-- ===== src/Runtime.antt =====
-- src/nscde_wayland_common/runtime-client.c: the client side of the runtime's socket.
pub mod Buffer
pub mod Frame
pub mod Cache
pub mod Subscription
pub mod Transport
pub mod Request
pub mod Reactor
