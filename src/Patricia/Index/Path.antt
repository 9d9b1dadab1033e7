-- ===== src/Patricia/Index/Path.antt =====
-- index.h, `IterPath`: the frames of an iteration, the first 16 in an array and the others behind.
pub mod Frames
use minweight_store_cpp.Base.{
  ℕ, ◌-◌, ◌+◌, ltb, leb, if◌then◌else◌, Option, none, some, List, [], ◌∷◌, ◌++◌, get_elem?, set,
  take, replicate, length, min,
}
use minweight_store_cpp.Patricia.Index.{PutFrame}

-- `kIterStackDepth`
abbrev pub iter_stack_depth : ℕ
iter_stack_depth = 16

pub record IterPath : Type 0 where
  pub stack : List PutFrame
  pub overflow : List PutFrame
  pub len : ℕ

abbrev pub blank_frame : PutFrame
blank_frame = record { id = 0; node = none; leaf = 0 }

abbrev pub new_path : IterPath
new_path = record { stack = replicate iter_stack_depth blank_frame; overflow = []; len = 0 }

-- `Reset`
unfoldable pub reset : IterPath → IterPath
reset path = record path { len = 0; overflow = [] }

unfoldable pub push_frame : IterPath → PutFrame → IterPath
push_frame path frame =
    if ltb path.len (length path.stack)
    then record path { stack = set path.stack path.len frame; len = path.len + 1 }
    else record path { overflow = path.overflow ++ (frame ∷ []); len = path.len + 1 }

-- `PushNode`, and `Push` with a null pointer.
unfoldable pub push_node : IterPath → ℕ → Option ℕ → ℕ → IterPath
unfolding push_frame
push_node path id node leaf = push_frame path (record { id = id; node = node; leaf = leaf })

-- `At`. `none` is a read past the vector.
unfoldable pub at : IterPath → ℕ → Option PutFrame
at path index =
    if ltb index (length path.stack)
    then get_elem? path.stack index
    else get_elem? path.overflow (index - length path.stack)

-- The write `At(index)->leaf = leaf`.
unfoldable pub set_at : IterPath → ℕ → PutFrame → IterPath
set_at path index frame =
    if ltb index (length path.stack)
    then record path { stack = set path.stack index frame }
    else record path { overflow = set path.overflow (index - length path.stack) frame }

-- `Truncate`, to no more frames than there are.
unfoldable pub truncate : IterPath → ℕ → IterPath
truncate path new_len =
    if leb new_len (length path.stack)
    then record path { overflow = []; len = new_len }
    else record path { overflow = take (new_len - length path.stack) path.overflow; len = new_len }

-- `FramesForInsert`
unfoldable pub frames_for_insert : IterPath → List PutFrame
frames_for_insert path =
    take (min path.len (length path.stack)) path.stack
    ++ take (path.len - length path.stack) path.overflow
