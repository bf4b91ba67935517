-- ===== src/Mqtt.antt =====
-- internal/mqtt: the topics, and the client over plain TCP.
pub mod Topics
pub mod Client
