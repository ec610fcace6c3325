-- ===== src/Model.antt =====
-- server/model.go: what a scan stores per tool and what the API serves. Strings are lists of
-- bytes; times are the strings or epoch values that the rows carry; an `int64` is its bit pattern.
use duplicatefinder.Base.{ℕ, Bool, List, Option, Text}

pub record RootMap : Type 0 where
  pub raw : Text
  pub canon : Text

pub record TruncInfo : Type 0 where
  pub groups : ℕ
  pub files : ℕ
  pub cap : ℕ

pub record FileEnt : Type 0 where
  pub id : Text
  pub name : Text
  pub dir : Text
  pub size : ℕ
  pub mod_time : Text
  pub mod_unix : ℕ
  pub created : Text
  pub captured : Text
  pub hash : Text
  pub pfx : Text
  pub ext : Text
  pub is_dir : Bool
  pub verdict : Text
  pub evidence : Text
  pub no_move : Bool
  pub links : ℕ
  pub ino : Text
  pub alloc : Option ℕ
  pub junk : ℕ
  pub junk_ex : List Text
  pub out : Bool
  pub prot : Bool

pub record Group : Type 0 where
  pub id : Text
  pub ext : Text
  pub size : ℕ
  pub hash : Text
  pub files : List FileEnt
  pub mod_time : Text
  pub variants : ℕ
  pub same_name : Bool
  pub count : ℕ
  pub copies : ℕ
  pub prot : ℕ
  pub reclaim : ℕ

pub record MatchOpts : Type 0 where
  pub name : Bool
  pub modified : Bool
  pub created : Bool

pub record ToolResult : Type 0 where
  pub tool : Text
  pub roots : List RootMap
  pub groups : List Group
  pub files : List FileEnt
  pub errors : List Text
  pub match : Option MatchOpts
  pub truncated : Option TruncInfo
  pub scanned : Text
