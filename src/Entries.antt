-- ===== src/Entries.antt =====
-- cmux/src/model/workspace.rs: what the sidebar shows for a workspace: status entries, metadata, log
-- entries, a progress bar and the checks of a pull request.
use cmux_gtk.Prelude.{Str, Option, ℤ}

pub record PrCheck : Type 0 where
  pub name : Str
  pub conclusion : Str

pub record StatusEntry (F : Type 0) : Type 0 where
  pub key : Str
  pub value : Str
  pub icon : Option Str
  pub color : Option Str
  pub url : Option Str
  pub timestamp : F

pub data MetadataFormat : Type 0 where
  plain markdown : MetadataFormat

pub record MetadataEntry (F : Type 0) : Type 0 where
  pub key : Str
  pub value : Str
  pub icon : Option Str
  pub color : Option Str
  pub url : Option Str
  pub priority : ℤ
  pub format : MetadataFormat
  pub timestamp : F

pub record MetadataBlock (F : Type 0) : Type 0 where
  pub key : Str
  pub content : Str
  pub priority : ℤ
  pub timestamp : F

pub record LogEntry (F : Type 0) : Type 0 where
  pub message : Str
  pub level : Str
  pub source : Option Str
  pub timestamp : F

pub record Progress (F : Type 0) : Type 0 where
  pub value : F
  pub label : Option Str
