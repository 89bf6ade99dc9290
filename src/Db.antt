-- ===== src/Db.antt =====
-- flame\db: the clients of databases.
pub mod Mysql
pub mod Redis
pub mod Mongodb
pub mod Rabbitmq
pub mod Kafka
