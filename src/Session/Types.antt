-- ===== src/Session/Types.antt =====
-- core/session/types.ts and agent-contract/errors.ts: the data of sessions, episodes and events.
-- Identifiers are strings; `EpochMs` is a number of milliseconds, so a natural number.
use memos_qdrant.Shared.{ℕ, String, Bool, Option, List}
use memos_qdrant.Shared.Int.{ℤ}
use memos_qdrant.Shared.Json.{Double, Meta}

-- The codes that these modules throw.
pub data ErrorCode : Type 0 where
  invalid_argument conflict internal session_not_found episode_not_found : ErrorCode

-- What an operation throws: a `MemosError`, by its code, or an error of SQLite, by its kind.
pub data Error : Type 0 where
  memos : ErrorCode → Error
  unique_constraint foreign_key_constraint : Error
  classifier_failed : Error

pub data TurnRole : Type 0 where
  user assistant tool system : TurnRole

-- `Omit<EpisodeTurn, "id" | "ts">`
pub record TurnInput : Type 0 where
  pub role : TurnRole
  pub content : String
  pub meta : Option Meta

pub record EpisodeTurn : Type 0 where
  pub id : String
  pub ts : ℕ
  pub role : TurnRole
  pub content : String
  pub meta : Option Meta

pub data IntentKind : Type 0 where
  task memory_probe chitchat meta_command unknown_intent : IntentKind

pub record Retrieval : Type 0 where
  pub tier1 : Bool
  pub tier2 : Bool
  pub tier3 : Bool

pub record IntentDecision : Type 0 where
  pub kind : IntentKind
  pub confidence : Double
  pub reason : String
  pub retrieval : Retrieval
  pub llm_model : Option String
  pub signals : List String

pub data TurnRelation : Type 0 where
  revision follow_up new_task unknown_relation : TurnRelation

pub data EpisodeStatus : Type 0 where
  opened closed : EpisodeStatus

pub data EpisodeCloseReason : Type 0 where
  finalized abandoned : EpisodeCloseReason

pub record EpisodeSnapshot : Type 0 where
  pub id : String
  pub session_id : String
  pub started_at : ℕ
  pub ended_at : Option ℕ
  pub status : EpisodeStatus
  pub r_task : Option Double
  pub turn_count : ℕ
  pub turns : List EpisodeTurn
  pub trace_ids : List String
  pub meta : Meta
  pub intent : IntentDecision

pub record EpisodeStartInput : Type 0 where
  pub session_id : String
  pub id : Option String
  pub initial_turn : Option TurnInput
  pub meta : Option Meta

-- `rTask?: number | null`
pub data RTask : Type 0 where
  absent cleared : RTask
  scored : Double → RTask

pub record EpisodeFinalizeInput : Type 0 where
  pub r_task : RTask
  pub patch_meta : Option Meta

pub record SessionOpenInput : Type 0 where
  pub id : Option String
  pub agent : String
  pub meta : Option Meta

pub record SessionSnapshot : Type 0 where
  pub id : String
  pub agent : String
  pub started_at : ℕ
  pub last_seen_at : ℕ
  pub meta : Meta
  pub open_episode_count : ℕ

pub data SessionEvent : Type 0 where
  session_started : SessionSnapshot → SessionEvent
  session_closed : String → String → SessionEvent
  session_idle_pruned : String → ℤ → SessionEvent
  episode_started : EpisodeSnapshot → SessionEvent
  episode_reopened : EpisodeSnapshot → TurnRelation → SessionEvent
  episode_turn_added : String → EpisodeTurn → SessionEvent
  episode_finalized : EpisodeSnapshot → EpisodeCloseReason → SessionEvent
  episode_abandoned : String → String → SessionEvent
  episode_relation_classified : String → String → TurnRelation → Double → String → SessionEvent

unfoldable pub is_open : EpisodeStatus → Bool
is_open opened = Bool.true
is_open closed = Bool.false
