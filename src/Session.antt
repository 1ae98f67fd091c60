-- ===== src/Session.antt =====
-- crates/agent-session/src/session.rs: the data of the session store.
pub mod Compactor
pub mod Store
pub use git_client.Prelude.{max_u64, saturating_add, saturating_mul}
use git_client.Prelude.{
  ℕ, ◌+◌, ◌*◌, ◌-◌, ◌^◌, ◌%◌, Bool, ◌||◌, not, List, [], ◌∷◌, Option, Text, min, ltb, ◌==◌, Result,
  ok, err, if◌then◌else◌,
}

pub data SessionRole : Type 0 where
  user assistant : SessionRole

pub record SessionMessage : Type 0 where
  pub role : SessionRole
  pub content : Text

pub record AgentSession : Type 0 where
  pub session_id : Text
  pub revision : ℕ
  pub system_instruction : Text
  pub memory_summary : Option Text
  pub recent_messages : List SessionMessage

pub record SessionLease : Type 0 where
  pub session_id : Text
  pub run_id : Text
  pub base_revision : ℕ
  pub snapshot : AgentSession

pub record SessionStoreLimits : Type 0 where
  pub max_sessions : ℕ
  pub max_system_bytes : ℕ
  pub max_message_bytes : ℕ
  pub max_recent_messages : ℕ
  pub max_recent_bytes : ℕ
  pub max_summary_bytes : ℕ

-- `SessionStoreLimits::default()`.
abbrev pub default_limits : SessionStoreLimits
default_limits = record {
  max_sessions = 32;
  max_system_bytes = 65536;
  max_message_bytes = 65536;
  max_recent_messages = 16;
  max_recent_bytes = 262144;
  max_summary_bytes = 32768;
}

pub data SessionError : Type 0 where
  invalid_config invalid_id invalid_content already_exists not_found capacity : SessionError
  busy stale_lease compaction : SessionError

-- The trait `MemoryCompactor`: the summary so far, the messages to fold in, the bytes allowed.
abbrev pub MemoryCompactor : Type 0
MemoryCompactor = Option Text → List SessionMessage → ℕ → Result SessionError Text

-- The test of `with_compactor`.
pub rejects_limits : SessionStoreLimits → Bool
rejects_limits l =
    l.max_sessions == 0
    || l.max_system_bytes == 0
    || l.max_message_bytes == 0
    || ltb l.max_recent_messages 2
    || not (l.max_recent_messages % 2 == 0)
    || ltb l.max_recent_bytes (saturating_mul l.max_message_bytes 2)
    || ltb l.max_summary_bytes 64
