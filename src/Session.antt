-- ===== src/Session.antt =====
-- core/session: sessions and episodes. `Types` is the data; `Db`, `SessionsRepo` and
-- `EpisodesRepo` are the two tables behind it.
pub mod Intent
pub mod Types
pub mod Db
pub mod SessionsRepo
pub mod EpisodesRepo
pub mod World
pub mod Episodes
pub mod Manager
mod Tests
