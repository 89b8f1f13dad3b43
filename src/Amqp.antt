-- ===== src/Amqp.antt =====
-- services/common/pkg/amqpctl: names on the broker, and the client that every service shares.
pub mod Names
pub mod Broker
pub mod Client
pub mod Consume
pub mod Calm
mod Tests
