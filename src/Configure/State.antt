-- ===== src/Configure/State.antt =====
-- The state and the messages of the handshake over the size of an output.
use swaylock_plugin.Base.{ℕ, Bool, List, [], ◌∷◌, ◌++◌, Option}
use swaylock_plugin.Forward.{SurfaceRequest}

pub data ClientError : Type 0 where
  invalid_serial unmapped not_integral not_divisible wrong_size : ClientError

-- What swaylock sends to the compositor or to the background program; `send_updates` is what one run
-- of `apply_pending_surface_updates` sends, the newest first.
pub data Message : Type 0 where
  send_configure : ℕ → ℕ → ℕ → Message
  ack_upstream : ℕ → Message
  commit_upstream create_output draw draw_fallback : Message
  update_outputs : ℕ → ℕ → Message
  send_updates : List SurfaceRequest → Message
  post_error : ClientError → Message

-- `struct serial_pair`.
pub record SerialPair : Type 0 where
  pub plugin_serial : ℕ
  pub upstream_serial : ℕ
  pub config_width : ℕ
  pub config_height : ℕ
  pub local_only : Bool

-- `struct forward_surface` with a layer surface role, besides what its commits apply.
pub record Plugin : Type 0 where
  pub serial_table : List SerialPair
  pub last_used_plugin_serial : ℕ
  pub last_acked_width : ℕ
  pub last_acked_height : ℕ
  pub has_been_configured : Bool

-- `struct swaylock_surface`, with `serial` of its client and whether the nested server runs.
-- `submission_timer` is whether the timer is armed.
pub record Output : Type 0 where
  pub width : ℕ
  pub height : ℕ
  pub first_configure_serial : ℕ
  pub used_first_configure : Bool
  pub has_pending_ack_conf : Bool
  pub pending_upstream_serial : ℕ
  pub has_newer_serial : Bool
  pub newest_serial : ℕ
  pub has_buffer : Bool
  pub dirty : Bool
  pub submission_timer : Bool
  pub server_running : Bool
  pub client_serial : ℕ
  pub plugin : Option Plugin
  pub log : List Message

abbrev pub emit : Message → Output → Output
emit m o = record o { log = o.log ++ m ∷ [] }

-- The size of a surface, an error of the background program, or a division by a scale of 0.
pub data SizeResult : Type 0 where
  bad_size : ClientError → SizeResult
  of_size : ℕ → ℕ → SizeResult
  divides_by_zero : SizeResult
