-- ===== src/Mysql.antt =====
-- The MySQL tables as the repositories use them through GORM.
pub mod Interface
pub mod Tasks
pub mod Crons
pub use Interface.{Mysql, IsMysql}
pub mod Memory
