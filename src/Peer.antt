-- ===== src/Peer.antt =====
-- The direct channels between module workers: lib/peer-channel.js and lib/peer-channel-broker.js.
pub mod Channel
pub mod Broker
