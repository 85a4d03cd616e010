-- ===== src/Socket.antt =====
-- cmux/src/socket/v2/mod.rs: requests and responses of the JSON protocol, and the state that the
-- handlers share. A handler is a function of the state; what it sends to the window is kept in
-- order. `serde_json` and `uuid` are arguments: the operations on values that the handlers call.
pub mod Params
pub mod Targets
pub mod Select
pub mod Report
pub mod Metadata
pub mod Describe
pub mod Action
pub mod Reorder
pub mod Pane
pub mod PaneSplit
pub mod PaneMove
pub mod Surface
pub mod Tab
pub mod Notify
pub mod Create
pub mod Answer
pub mod Dispatch
pub mod Samples
use cmux_gtk.Prelude.{
  Uuid, ℕ, ℤ, Str, Bool, true, false, Option, none, some, List, [], ◌∷◌, ◌++◌, codes,
}
use cmux_gtk.TabManager.{TabManager}
use cmux_gtk.Notifications.{NotificationStore}

-- `serde_json::Value`, the macro `json!`, and `Uuid::parse_str` with its inverse
pub record Json (V : Type 0) : Type 0 where
  pub get : V → Str → Option V
  pub as_str : V → Option Str
  pub as_u64 : V → Option ℕ
  pub as_i64 : V → Option ℤ
  pub as_bool : V → Option Bool
  pub as_array : V → Option (List V)
  pub is_null : V → Bool
  pub null : V
  pub string : Str → V
  pub boolean : Bool → V
  pub number : ℕ → V
  pub array : List V → V
  pub object : List (Str × V) → V
  pub parse_uuid : Str → Option Uuid
  pub to_string : Uuid → Str

-- `Value::as_f64`
pub record JsonFloat (V F : Type 0) : Type 0 where
  pub as_f64 : V → Option F

pub record ErrorInfo : Type 0 where
  pub code : Str
  pub message : Str

pub record Response (V : Type 0) : Type 0 where
  pub id : V
  pub ok : Bool
  pub result : Option V
  pub error : Option ErrorInfo

abbrev pub max_directory_len : ℕ
max_directory_len = 4096

abbrev pub max_title_len : ℕ
max_title_len = 1024

abbrev pub max_url_len : ℕ
max_url_len = 1024

abbrev pub max_branch_len : ℕ
max_branch_len = 256

abbrev pub max_method_len : ℕ
max_method_len = 200

abbrev pub max_name_len : ℕ
max_name_len = 128

abbrev pub max_status_len : ℕ
max_status_len = 64

-- The events of cmux/src/app.rs that the handlers send to the window.
pub data UiEvent : Type 0 where
  refresh metadata_refresh : UiEvent

pub record SharedState (F : Type 0) : Type 0 where
  pub tab_manager : TabManager F
  pub notifications : NotificationStore F
  pub events : List UiEvent

module _ {F : Type 0} where
  unfoldable pub send_ui_event : UiEvent → SharedState F → SharedState F
  send_ui_event event state = record state { events = state.events ++ event ∷ [] }

  unfoldable pub notify_ui_refresh : SharedState F → SharedState F
  unfolding send_ui_event
  notify_ui_refresh state = send_ui_event refresh state

  pub notify_metadata_refresh : SharedState F → SharedState F
  unfolding send_ui_event
  notify_metadata_refresh state = send_ui_event metadata_refresh state

module _ {V : Type 0} where
  pub success : V → V → Response V
  success id result = record { id = id; ok = true; result = some result; error = none }

  pub error : V → Str → Str → Response V
  error id code message = record {
    id = id;
    ok = false;
    result = none;
    error = some (record { code = code; message = message });
  }

  pub invalid_params : V → Str → Response V
  unfolding error
  invalid_params id message = error id (codes "invalid_params") message

  pub not_found : V → Str → Response V
  unfolding error
  not_found id message = error id (codes "not_found") message

-- `Result<A, Response>`
pub data Result (V A : Type 0) : Type 0 where
  err : Response V → Result V A
  ok : A → Result V A

-- The state after a request, and the response.
abbrev pub Handler : Type 0 → Type 0 → Type 0
Handler V F = SharedState F → SharedState F × Response V

module _ {V A : Type 0} where
  -- `option.ok_or(response)`
  unfoldable pub ok_or : Option A → Response V → Result V A
  ok_or none r = err r
  ok_or (some a) r = ok a

  -- A handler returns the response of a parameter that it rejects.
  infixl 5 ◌>>=◌
  unfoldable pub ◌>>=◌ : {F : Type 0} → Result V A → (A → Handler V F) → Handler V F
  err r >>= k = λ state. (state, r)
  ok a >>= k = k a
