-- ===== src/Client.antt =====
-- client/src/udp.rs and client/src/main.rs: the voice datagrams of a client, and its program.
pub mod Sender
pub mod Sends
pub mod Nonces
pub mod Pings
pub mod Receiver
pub mod Routes
pub mod Relayed
pub mod Setup
pub mod Program
pub mod Discovery
pub mod Surprise
pub mod Greeting
mod Examples
