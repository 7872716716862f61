-- ===== src/Plan/Experiment.antt =====
-- plan/experiment.py and its tables (SCHEMA_V5 of db/store.py): the sessions of the
-- self-experiment and the targets that later plays resolve.
pub mod Targets
pub mod Assign
pub mod Report
use oraja_traning.Prelude.{
  ℕ, String, Bool, true, false, Option, none, some, List, [], ◌∷◌, if◌then◌else◌, nat_beq,
}
use oraja_traning.Prelude.Int.{ℤ}

pub data Arm : Type 0 where
  coach control : Arm

pub data TargetKind : Type 0 where
  retention transfer : TargetKind

pub data TargetStatus : Type 0 where
  pending resolved missing duplicate : TargetStatus

abbrev pub is_transfer : TargetKind → Bool
is_transfer TargetKind.retention = false
is_transfer TargetKind.transfer = true

abbrev pub is_pending : TargetStatus → Bool
is_pending TargetStatus.pending = true
is_pending TargetStatus.resolved = false
is_pending TargetStatus.missing = false
is_pending TargetStatus.duplicate = false

pub record Session : Type 0 where
  pub id : ℕ
  pub experiment_id : ℕ
  pub session_key : String
  pub session_at : ℤ
  pub arm : Arm

pub record Target (F : Type 0) : Type 0 where
  pub id : ℕ
  pub session_id : ℕ
  pub target_kind : TargetKind
  pub interval_days : ℕ
  pub sha256 : String
  pub mode : ℤ
  pub due_at : ℤ
  pub window_closes_at : ℤ
  pub p_pred : F
  pub status : TargetStatus
  pub outcome : Option ℕ
  pub resolved_play_id : Option ℕ
  pub resolved_at : Option ℤ
  pub resolution_note : Option String

-- `JOIN experiment_sessions session ON session.id = target.session_id`; ids are unique.
abbrev pub session_of : ℕ → List Session → Option Session
session_of id [] = none
session_of id (s ∷ ss) = if nat_beq s.id id then some s else session_of id ss
