-- ===== src/Error/Message.antt =====
-- `Status::with_message` and `Status::state` of src/error.rs.
use rust_rocks.Common.{Option, none, some, [], Bytes, ◌==◌, if◌then◌else◌, not}
use rust_rocks.Ffi.{M, pure, ◌>>=◌, ◌>>◌, assert}
use rust_rocks.Engine.{Engine}
use rust_rocks.Error.{
  Code, Status, Native, c_string, rocks_status_create_with_code_and_msg, rocks_status_get_state,
}
use rust_rocks.Error.Codes.{code_to_int}

module _ (E : Engine) where
  -- `Status::with_message`
  unfoldable pub with_message : Bytes → M (Native E) Status
  unfolding rocks_status_create_with_code_and_msg code_to_int
  with_message msg = do
    let code = Code.invalid_argument
    assert (not (code_to_int code == code_to_int Code.ok))
    p ← rocks_status_create_with_code_and_msg E (code_to_int code) msg
    pure (record { raw = p })

  -- `CStr::from_ptr(s).to_str().ok()`
  abbrev pub to_str_ok : Bytes → Option Bytes
  to_str_ok s = if E.is_utf8 s then some s else none

  abbrev pub state_of : Option Bytes → Bytes
  state_of none = []
  state_of (some p) = elim (to_str_ok (c_string p)) [ none ↦ [] | some s ↦ s ]

  -- `Status::state`
  unfoldable pub state : Status → M (Native E) Bytes
  unfolding rocks_status_get_state c_string
  state s = rocks_status_get_state E s.raw >>= λ p. pure (state_of p)
