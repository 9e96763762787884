-- ===== src/Tests.antt =====
-- The theorems at concrete inputs.
mod Values
mod Errors
mod Sockets
mod Mailboxes
mod Sending
mod Packets
mod Devices
mod Programs
mod Mbufs
mod Frames
mod Pools
mod Objects
mod Polling
mod Threads
mod Rounds
mod Shutdown
mod Headers
mod Locking
mod Cores
