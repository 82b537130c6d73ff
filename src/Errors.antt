-- ===== src/Errors.antt =====
-- errors.py: which exception of an RPC leads to which disposition.
use paperboy.Base.{ℕ, Bool, true, false, Option, none, some, leb, if◌then◌else◌}

-- The exception classes that `classify` tells apart. `unknown n` is any other class.
pub data RpcError : Type 0 where
  flood_wait : ℕ → RpcError
  chat_admin_required channel_private username_not_occupied username_invalid : RpcError
  msg_id_invalid broadcast_forbidden premium_account_required chat_not_modified : RpcError
  invite_hash_expired invite_hash_invalid invite_hash_empty invite_request_sent : RpcError
  channels_too_much user_channels_too_much users_too_much user_banned_in_channel : RpcError
  user_id_invalid : RpcError
  peer_flood frozen_method_invalid auth_key_duplicated session_revoked : RpcError
  connection_error timeout_error os_error : RpcError
  unknown : ℕ → RpcError

pub data Disposition : Type 0 where
  retry skip phase_stop hard_stop : Disposition

-- `isinstance(exc, _skip_error_classes())`
pub is_skip : RpcError → Bool
is_skip chat_admin_required = true
is_skip channel_private = true
is_skip username_not_occupied = true
is_skip username_invalid = true
is_skip msg_id_invalid = true
is_skip broadcast_forbidden = true
is_skip premium_account_required = true
is_skip chat_not_modified = true
is_skip invite_hash_expired = true
is_skip invite_hash_invalid = true
is_skip invite_hash_empty = true
is_skip invite_request_sent = true
is_skip channels_too_much = true
is_skip user_channels_too_much = true
is_skip users_too_much = true
is_skip user_banned_in_channel = true
is_skip user_id_invalid = true
is_skip _ = false

-- `isinstance(exc, _hard_stop_error_classes())`; the test double `FakePeerFlood` is a `peer_flood`.
pub is_hard_stop : RpcError → Bool
is_hard_stop peer_flood = true
is_hard_stop frozen_method_invalid = true
is_hard_stop auth_key_duplicated = true
is_hard_stop session_revoked = true
is_hard_stop _ = false

-- `isinstance(exc, ConnectionError | TimeoutError | OSError)`
pub is_transient : RpcError → Bool
is_transient connection_error = true
is_transient timeout_error = true
is_transient os_error = true
is_transient _ = false

-- The seconds of a flood wait: `is_flood_wait`, and the attribute `seconds`.
unfoldable pub flood_seconds : RpcError → Option ℕ
flood_seconds (flood_wait s) = some s
flood_seconds _ = none

-- `none` where the exception is raised again as itself.
unfoldable pub classify : RpcError → ℕ → Option Disposition
unfolding flood_seconds is_skip is_hard_stop is_transient
classify exc threshold = elim (flood_seconds exc) [
  | some s ↦ some (if leb s threshold then retry else phase_stop)
  | none ↦
      if is_skip exc
      then some skip
      else if is_hard_stop exc
      then some hard_stop
      else if is_transient exc
      then some retry
      else none
]
