-- ===== src/Continuation/Model.antt =====
-- durallm/continuation/models.py, and the sessions and errors of durallm/continuation/store.py.
-- Requests and responses are only hashed, so their digests stand for them.
use durallm.Common.{
  ℕ, zero, suc, Bool, true, false, not, ◌&&◌, ◌||◌, Option, none, some, String, List, [], ◌∷◌, leb,
  nat_beq, all, any, length, ◌==◌, string_eq,
}
use durallm.Common.Text.{codes}

pub record ContinuationRequest : Type 0 where
  pub state_digest : String
  pub session_id : Option String
  pub parent_checkpoint_digest : Option String
  pub protocol_version : String

pub record Checkpoint : Type 0 where
  pub checkpoint_id : String
  pub session_id : String
  pub turn_id : String
  pub epoch : ℕ
  pub parent_checkpoint_digest : Option String
  pub request_digest : String
  pub client_state_digest : String
  pub response_digest : String
  pub gateway_digest : String
  pub created_at : ℕ

pub data EventType : Type 0 where
  turn_started turn_completed checkpoint_acknowledged turn_interrupted : EventType

pub record ContinuationEvent : Type 0 where
  pub event_id : String
  pub event_type : EventType
  pub session_id : String
  pub turn_id : String
  pub epoch : ℕ
  pub protocol_version : String
  pub checkpoint : Option Checkpoint
  pub ack_required : Bool
  pub detail : Option String
  pub created_at : ℕ

pub record ContinuationTurn : Type 0 where
  pub session_id : String
  pub turn_id : String
  pub epoch : ℕ
  pub parent_checkpoint_digest : Option String
  pub client_state_digest : String
  pub protocol_version : String

-- What `canonical_digest` is applied to for a checkpoint.
pub record CheckpointData : Type 0 where
  pub turn : ContinuationTurn
  pub request_digest : String
  pub response_digest : String
  pub selected_endpoint : String

-- `_Session`
pub record Session : Type 0 where
  pub session_id : String
  pub protocol_version : String
  pub next_epoch : ℕ
  pub active_turn_id : Option String
  pub active_epoch : Option ℕ
  pub latest_checkpoint : Option Checkpoint
  pub latest_checkpoint_acknowledged : Bool
  pub events : List ContinuationEvent

-- `ContinuationProtocolError`, by its message
pub data ContinuationError : Type 0 where
  unsupported_version invalid_identifier invalid_digest parent_of_new_session : ContinuationError
  version_mismatch turn_already_active must_acknowledge stale_parent : ContinuationError
  turn_not_active no_checkpoint acknowledgement_mismatch already_acknowledged : ContinuationError

-- Its `status_code`
unfoldable pub status_code : ContinuationError → ℕ
status_code unsupported_version = 400
status_code invalid_identifier = 400
status_code invalid_digest = 400
status_code parent_of_new_session = 400
status_code no_checkpoint = 404
status_code _ = 409

abbrev pub acp_version : String
acp_version = "lcb-acp/1"

abbrev pub is_hex : ℕ → Bool
is_hex c = (leb b'0' c && leb c b'9') || (leb b'a' c && leb c b'f')

abbrev pub is_identifier_char : ℕ → Bool
is_identifier_char c =
    (leb b'A' c && leb c b'Z')
    || (leb b'a' c && leb c b'z')
    || (leb b'0' c && leb c b'9')
    || any (nat_beq c) (b'_' ∷ b'.' ∷ b':' ∷ b'-' ∷ [])

-- `_DIGEST_RE.fullmatch` and `_IDENTIFIER_RE.fullmatch`
unfoldable pub is_digest : String → Bool
is_digest value = nat_beq (length (codes value)) 64 && all is_hex (codes value)

unfoldable pub is_identifier : String → Bool
is_identifier value =
    leb 1 (length (codes value))
    && leb (length (codes value)) 128
    && all is_identifier_char (codes value)

-- A text that is there and is not empty.
abbrev pub is_given : Option String → Bool
is_given none = false
is_given (some s) = not (s == "")

-- `text[:n]`
abbrev pub first_chars : ℕ → String → String
first_chars zero s = ""
first_chars (suc n) String.[] = ""
first_chars (suc n) (String.◌∷◌ c s) = String.◌∷◌ c (first_chars n s)

abbrev pub same_option : Option String → Option String → Bool
same_option none none = true
same_option (some a) (some b) = a == b
same_option _ _ = false
