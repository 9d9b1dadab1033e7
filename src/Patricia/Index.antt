-- ===== src/Patricia/Index.antt =====
-- src/minpatricia/include/minpatricia/index.h, `Index`: the pages of a `HeapNodeStore` as one ordered
-- map from keys to positions. The record store is a template parameter of the class: the model takes
-- its `Key` as the function `records`. A `NodePage*` is the id of the page, read in the store of that
-- moment; `scratch_` holds no value between two calls and is not modelled.
pub mod Act
pub mod Path
pub mod Forest
pub mod Read
pub mod Seek
pub mod Walk
pub mod Diffs
pub mod Routing
pub mod Rebuild
pub mod Split
pub mod Writes
pub mod Puts
pub mod Merges
pub mod Deletes
pub mod Gets
pub mod Runs
use minweight_store_cpp.Base.{ℕ, Bool, Option, List}
use minweight_store_cpp.Patricia.Key.{Key}
use minweight_store_cpp.Patricia.Nodes.{HeapNodeStore}

pub record Index : Type 0 where
  pub nodes : HeapNodeStore
  pub root_id : ℕ
  pub count : ℕ

pub record ProbeResult : Type 0 where
  pub pos : ℕ
  pub found : Bool

pub record PutResult : Type 0 where
  pub old_pos : ℕ
  pub replaced : Bool

pub record DeleteResult : Type 0 where
  pub pos : ℕ
  pub deleted : Bool

-- `node` is the page pointer, which may be null.
pub record PutFrame : Type 0 where
  pub id : ℕ
  pub node : Option ℕ
  pub leaf : ℕ

pub record SplitRange : Type 0 where
  pub start : ℕ
  pub count : ℕ

pub record InsertSlot : Type 0 where
  pub target : ℕ
  pub slot : ℕ

pub record IterItem : Type 0 where
  pub key : Key
  pub pos : ℕ

-- `Cartesian`: `none` is the index -1.
pub record Cartesian : Type 0 where
  pub left : List (Option ℕ)
  pub right : List (Option ℕ)
  pub root : ℕ
