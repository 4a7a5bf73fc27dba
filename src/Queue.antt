-- ===== src/Queue.antt =====
-- src/queue: the dead-letter queue. `Record` is failure-record.ts, `Port` the errors of port.ts,
-- `Sqlite` the SQLite provider, `Rabbit` the RabbitMQ one and `Providers` the choice of them.
pub mod Record
pub mod Port
pub mod Sqlite
pub mod Rabbit
pub mod Providers
mod Tests
