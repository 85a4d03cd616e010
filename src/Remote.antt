-- ===== src/Remote.antt =====
-- cmux/src/remote/session.rs: the SSH configuration and the connection state of a workspace.
use cmux_gtk.Prelude.{ℕ, Str, Option, List}

pub record RemoteConfig : Type 0 where
  pub destination : Str
  pub port : Option ℕ
  pub identity : Option Str
  pub ssh_options : List Str
  pub remote_daemon_path : Option Str

pub data RemoteState : Type 0 where
  disconnected connecting : RemoteState
  connected : ℕ → Str → RemoteState
  error : Str → RemoteState
