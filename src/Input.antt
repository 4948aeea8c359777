-- ===== src/Input.antt =====
-- internal/input: the sources of records. The stream inputs read from a broker (Input/Kafka,
-- Input/Pubsub, Input/Rabbitmq, Input/Sqs), the event input is called (Input/Event), and the
-- scrape input polls (Input/Scrape).
pub mod Message
pub mod Kafka
pub mod Pubsub
pub mod Rabbitmq
pub mod Sqs
pub mod Configs
pub mod Settled
pub mod Delivery
pub mod Event
pub mod Scrape
