-- ===== src/Tests.antt =====
-- Runs of the model on concrete inputs, and each theorem with hypotheses at one of them.
mod Tables
mod Messages
mod Targets
mod Clients
mod Ingress
mod Proxies
mod Tunnels
mod Channels
mod Servers
mod Runs
mod Systems
