-- ===== src/Tests.antt =====
-- The theorems at concrete requests, addresses and subscriptions.
mod Addresses
mod Paths
mod Web
mod Registration
mod Requests
mod Routes
mod Events
mod Access
mod Subscriptions
mod Devices
mod Remote
mod Sessions
mod Servers
mod Uploads
mod Streams
