-- ===== src/Db/State.antt =====
-- The assistant database as the collectors write it, and the table `collector_state`.
use oraja_traning.Prelude.{String, Option}
use oraja_traning.Prelude.Int.{ℤ}
use oraja_traning.Prelude.Eq.{string_eq}
use oraja_traning.Prelude.Dict.{Dict, insert}
use oraja_traning.Db.Plays.{PlayTable}
use oraja_traning.Db.Cursors.{CursorTable}

pub record CollectorState (F : Type 0) : Type 0 where
  pub source_generation : ℤ
  pub last_mtime : Option F
  pub last_size : Option ℤ
  pub last_run_at : Option ℤ
  pub last_error : Option String

pub record Assistant (F : Type 0) : Type 0 where
  pub plays : PlayTable F
  pub cursors : CursorTable
  pub states : Dict String (CollectorState F)

-- `upsert_collector_state`
unfoldable pub upsert_collector_state :
    {F : Type 0} → String → CollectorState F → Assistant F → Assistant F
upsert_collector_state key state a = record a { states = insert key state a.states }
