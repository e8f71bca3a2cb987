-- ===== src/Examples.antt =====
-- The theorems at concrete inputs that meet their hypotheses, and runs of the definitions.
mod Clouds
mod Devices
mod Histories
mod Hosts
mod Links
mod Pools
mod Relays
mod Requests
mod Servers
mod Sockets
mod Storages
mod Tables
mod Threads
mod Workers
