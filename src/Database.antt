-- ===== src/Database.antt =====
-- Go's database/sql as the Postgres repositories use it: a state `W`, and the operations of a
-- `*sql.DB` and of its transaction on it. The statements are the texts of the source; what the server
-- does with them is assumed where a theorem needs it. A column of another kind than the schema gives it
-- is an error of `Scan` here; some of them Go would convert.
use sentinel_flow_event_driv.Base.{ℕ, String, Bool, Option, List}
use sentinel_flow_event_driv.Base.Word.{Time}
use sentinel_flow_event_driv.Ports.{Fallible}

-- An argument of a statement, or a column of a row.
pub data SqlValue : Type 0 where
  null : SqlValue
  text : String → SqlValue
  json : String → SqlValue  -- the bytes of a JSON text
  flag : Bool → SqlValue
  number : ℕ → SqlValue  -- int64
  score : ℕ → SqlValue  -- float64, in tenths
  instant : Time → SqlValue

abbrev pub SqlRow : Type 0
SqlRow = List SqlValue

-- What `Next` walks over, and what `rows.Err()` says at the end.
pub record Rows : Type 0 where
  pub all : List SqlRow
  pub failure : Option String

pub record Database (W : Type 0) : Type 0 where
  -- `Exec`, with the number of `RowsAffected`
  pub exec : String → List SqlValue → W → Fallible ℕ × W
  pub query : String → List SqlValue → W → Fallible Rows
  pub begin : W → Fallible Unit × W
  -- `tx.Exec`, `tx.Commit` and `tx.Rollback`
  pub tx_exec : String → List SqlValue → W → Fallible ℕ × W
  pub commit : W → Fallible Unit × W
  pub rollback : W → W

-- `_, err := db.Exec(...); return err`
abbrev pub only_error : {W : Type 0} → Fallible ℕ × W → Fallible Unit × W
only_error (Fallible.ok _, w) = (Fallible.ok tt, w)
only_error (Fallible.err e, w) = (Fallible.err e, w)
