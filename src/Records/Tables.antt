-- ===== src/Records/Tables.antt =====
-- The collections that internal/records works on, as far as its queries read them.
-- A time is in milliseconds. A row of statistics keeps its payload as text.
use homemonit.Base.{ℕ, String, List}

pub record StatsRow : Type 0 where
  pub id : String
  pub system : String
  pub type : String
  pub created : ℕ
  pub stats : String

-- A row of `containers` or of `systemd_services`.
pub record UpdatedRow : Type 0 where
  pub id : String
  pub updated : ℕ

pub record HistoryRow : Type 0 where
  pub id : String
  pub user : String
  pub created : ℕ

pub record QuietRow : Type 0 where
  pub id : String
  pub type : String
  pub end : ℕ

pub record Tables : Type 0 where
  pub system_stats : List StatsRow
  pub container_stats : List StatsRow
  pub containers : List UpdatedRow
  pub systemd_services : List UpdatedRow
  pub alerts_history : List HistoryRow
  pub quiet_hours : List QuietRow

-- The statements that the database can refuse.
pub data Statement : Type 0 where
  delete_system_stats delete_container_stats delete_containers delete_services count_history :
      Statement
  delete_history : String → Statement
  delete_quiet_hours : Statement
