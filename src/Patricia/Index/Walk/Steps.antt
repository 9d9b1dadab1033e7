-- ===== src/Patricia/Index/Walk/Steps.antt =====
-- index.h: `LeftmostRecord` and `NextPath` on a tree of pages.
use minweight_store_cpp.Base.{ℕ, zero, suc, ◌+◌, ◌-◌, ◌≤◌, ◌<◌, ◌==◌, ltb, bit_or, arith}
use minweight_store_cpp.Base.{
  none, some, List, [], ◌∷◌, ◌++◌, length, ◌≡◌, sym, refl, All, true, false, inl, inr, Bool-cases,
  ltb→lt, ltb→le, append_assoc, length-append,
}
use minweight_store_cpp.Patricia.Status.{ok, ◌>>=◌}
use mathlib.Core.Path.{subst}
use minweight_store_cpp.Patricia.Route.{child_tag}
use minweight_store_cpp.Patricia.Route.Reps.{record_rep, child_rep}
use minweight_store_cpp.Patricia.Page.Tree.{Tree, one-le-leaves}
use minweight_store_cpp.Patricia.Nodes.{HeapNodeStore}
use minweight_store_cpp.Patricia.Index.Path.{IterPath, set_at, truncate, push_node}
use minweight_store_cpp.Patricia.Index.Path.Frames.{Shows, push_frame-Shows}
use minweight_store_cpp.Patricia.Index.Seek.{
  Found, leftmost_record, next_path_loop, next_path, node_for_frame,
}
use minweight_store_cpp.Patricia.Index.Forest.{
  Forest, no_more, record_then, child_then, entries, positions, depth, one-le-depth, IsPage, Held,
}
use minweight_store_cpp.Patricia.Index.Walk.Trails.{
  Stop, frame_of, frames_of, skip, remaining, IsStop, StandsAt, Entry, look, skip_all, record_entry,
  child_entry, size-IsPage, rep_at-IsPage, page_at-IsPage, len-Shows, at-last, truncate-last,
  set_at-last,
}

-- The step finds the first of these records, or none if there is none.
abbrev pub Reaches : HeapNodeStore → ℕ → Found → List ℕ → Type 0
Reaches nodes deep found [] = found ≡ ok none
Reaches nodes deep found (pos ∷ rest) =
    (path : IterPath) × (found ≡ ok (some path)) × StandsAt nodes deep path pos rest

length-frames_of : (stops : List Stop) → length (frames_of stops) ≡ length stops
length-frames_of [] = refl
length-frames_of (stop ∷ stops) =
    omega (arith, length-append (frames_of stops) (frame_of stop ∷ []), length-frames_of stops)

module _ (nodes : HeapNodeStore) (deep : ℕ) where
  -- From the first entry of a page down to a record.
  pub leftmost_record-Reaches :
      (rounds : ℕ) (path : IterPath) (stops : List Stop) (id : ℕ) (t : Tree) (f : Forest)
      → Shows path (frames_of stops)
      → All (IsStop nodes deep) stops
      → IsPage nodes id t f
      → Held nodes f
      → depth f ≤ rounds
      → rounds ≤ deep
      → Reaches nodes deep (leftmost_record rounds nodes path id) (positions f ++ remaining stops)
  unfolding leftmost_record push_node
  leftmost_record-Reaches zero path stops id t f w valid is held low high =
      absurd (omega (arith, one-le-depth f))
  leftmost_record-Reaches (suc rounds) path stops id t no_more w valid is held low high =
      absurd (omega (arith, is.count, one-le-leaves t))
  leftmost_record-Reaches (suc rounds) path stops id t (record_then pos rest) w valid is
        (small, held) low high =
      let here = is.here in
      let size = size-IsPage nodes id t (record_then pos rest) is in
      let full : (is.page.size == 0) ≡ false = ground arith in
      let read = rep_at-IsPage nodes id t (record_then pos rest) is 0 pos refl in
      let (plain, at_pos) = record_rep pos small in
      let stop : Stop = record { id = id; tree = t; forest = record_then pos rest; leaf = 0 } in
      (
        push_node path id (some id) 0,
        rw (here, ◌>>=◌, full, read, ◌>>=◌, plain) refl,
        record {
          stop = stop;
          stops = stops;
          shows = push_frame-Shows path (frames_of stops) w (frame_of stop);
          valid = (
            record { page = is; held = (small, held); inside = omega arith; shallow = omega arith },
            valid,
          );
          here = refl;
          small = small;
          before = refl;
        },
      )
  leftmost_record-Reaches (suc rounds) path stops id t (child_then i u child rest) w valid is
        (small, below, held, more) low high =
      let here = is.here in
      let f = child_then i u child rest in
      let size = size-IsPage nodes id t f is in
      let full : (is.page.size == 0) ≡ false = ground arith in
      let read = rep_at-IsPage nodes id t f is 0 (bit_or child_tag i) refl in
      let (tagged, at_id) = child_rep i small in
      let stop : Stop = record { id = id; tree = t; forest = f; leaf = 0 } in
      let pushed = push_node path id (some id) 0 in
      let down =
        leftmost_record-Reaches rounds pushed (stop ∷ stops) i u child
          (push_frame-Shows path (frames_of stops) w (frame_of stop))
          (
            record {
              page = is;
              held = (small, below, held, more);
              inside = omega arith;
              shallow = omega arith;
            },
            valid,
          )
          below held (omega arith) (omega arith) in
      let e : positions child ++ (positions rest ++ remaining stops)
          ≡ (positions child ++ positions rest) ++ remaining stops =
        sym (append_assoc (positions child) (positions rest) (remaining stops)) in
      let step : leftmost_record (suc rounds) nodes path id
          ≡ leftmost_record rounds nodes pushed i =
        rw (here, ◌>>=◌, full, read, ◌>>=◌, tagged, at_id) refl in
      rw step (subst (Reaches nodes deep (leftmost_record rounds nodes pushed i)) e down)

  onward :
      (stop : Stop) (is : IsStop nodes deep stop)
      → ltb (stop.leaf + 1) is.page.page.size ≡ true
      → IsStop nodes deep (record stop { leaf = stop.leaf + 1 })
  onward stop is inside = record {
    page = is.page;
    held = is.held;
    inside = omega (
      arith,
      ltb→lt (stop.leaf + 1) is.page.page.size inside,
      size-IsPage nodes stop.id stop.tree stop.forest is.page,
    );
    shallow = is.shallow;
  }

  next_entry :
      (rounds : ℕ) (path : IterPath) (stop : Stop) (stops : List Stop)
      → Shows path (frames_of (stop ∷ stops))
      → (is : IsStop nodes deep stop) → All (IsStop nodes deep) stops
      → ltb (stop.leaf + 1) is.page.page.size ≡ true
      → Entry nodes stop.forest (suc stop.leaf)
      → Reaches nodes deep (next_path_loop (suc rounds) deep nodes path) (remaining (stop ∷ stops))
  unfolding next_path_loop node_for_frame
  next_entry rounds path stop stops w is valid inside (record_entry pos small read split) =
      let more : (path.len == 0) ≡ false = ground (arith, len-Shows path stop stops w) in
      let last = at-last path stop stops w in
      let ptr = page_at-IsPage nodes stop.id stop.tree stop.forest is.page in
      let on : Stop = record stop { leaf = stop.leaf + 1 } in
      let (plain, at_pos) = record_rep pos small in
      let e : suc stop.leaf ≡ stop.leaf + 1 = omega arith in
      let reads =
        rep_at-IsPage nodes stop.id stop.tree stop.forest is.page (stop.leaf + 1) pos
          (rw e at read) in
      let moved = set_at path (path.len - 1) (frame_of on) in
      let step : next_path_loop (suc rounds) deep nodes path ≡ ok (some moved) =
        rw (next_path_loop, more, last, ◌>>=◌, ptr, ◌>>=◌, inside, reads, ◌>>=◌, plain) refl in
      rw (step, split)
        (
          moved,
          refl,
          record {
            stop = on;
            stops = stops;
            shows = set_at-last path stop stops w on;
            valid = (onward stop is inside, valid);
            here = rw e at read;
            small = small;
            before = rw (← e) refl;
          },
        )
  next_entry rounds path stop stops w is valid inside
        (child_entry id t child small read page held shallow split) =
      let more : (path.len == 0) ≡ false = ground (arith, len-Shows path stop stops w) in
      let last = at-last path stop stops w in
      let ptr = page_at-IsPage nodes stop.id stop.tree stop.forest is.page in
      let on : Stop = record stop { leaf = stop.leaf + 1 } in
      let (tagged, at_id) = child_rep id small in
      let e : suc stop.leaf ≡ stop.leaf + 1 = omega arith in
      let reads =
        rep_at-IsPage nodes stop.id stop.tree stop.forest is.page (stop.leaf + 1)
          (bit_or child_tag id) (rw e at read) in
      let moved = set_at path (path.len - 1) (frame_of on) in
      let step : next_path_loop (suc rounds) deep nodes path ≡ leftmost_record deep nodes moved id =
        rw (next_path_loop, more, last, ◌>>=◌, ptr, ◌>>=◌, inside, reads, ◌>>=◌, tagged, at_id)
          refl in
      let down =
        leftmost_record-Reaches deep moved (on ∷ stops) id t child
          (set_at-last path stop stops w on) (onward stop is inside, valid) page held
          (omega (arith, is.shallow)) (omega arith) in
      let there : positions child ++ remaining (on ∷ stops)
          ≡ positions (skip (suc stop.leaf) stop.forest) ++ remaining stops =
        rw (split, append_assoc, e) refl in
      rw step (subst (Reaches nodes deep (leftmost_record deep nodes moved id)) there down)

  -- One frame up or on: from the entry behind the one at which the iteration stands.
  next_path_loop-Reaches :
      (rounds : ℕ) (path : IterPath) (stops : List Stop)
      → Shows path (frames_of stops)
      → All (IsStop nodes deep) stops
      → length stops < rounds
      → Reaches nodes deep (next_path_loop rounds deep nodes path) (remaining stops)
  unfolding next_path_loop node_for_frame
  next_path_loop-Reaches zero path stops w valid low = absurd (omega arith)
  next_path_loop-Reaches (suc rounds) path [] w valid low =
      let l : path.len ≡ 0 = w.len in rw l refl
  next_path_loop-Reaches (suc rounds) path (stop ∷ stops) w (is, valid) low =
      let more : (path.len == 0) ≡ false = ground (arith, len-Shows path stop stops w) in
      let last = at-last path stop stops w in
      let ptr = page_at-IsPage nodes stop.id stop.tree stop.forest is.page in
      let size = size-IsPage nodes stop.id stop.tree stop.forest is.page in
      elim (Bool-cases (ltb (stop.leaf + 1) is.page.page.size)) [
        | inl inside ↦
            let next : suc stop.leaf < entries stop.forest =
              omega (arith, ltb→lt (stop.leaf + 1) is.page.page.size inside, size) in
            next_entry rounds path stop stops w is valid inside
              (look nodes stop.forest (suc stop.leaf) is.held next)
        | inr at_end ↦
            let none_left : positions (skip (suc stop.leaf) stop.forest) ≡ [] =
              skip_all stop.forest (suc stop.leaf)
                (omega (arith, ltb→le (stop.leaf + 1) is.page.page.size at_end, size)) in
            let step : next_path_loop (suc rounds) deep nodes path
                ≡ next_path_loop rounds deep nodes (truncate path (path.len - 1)) =
              rw (next_path_loop, more, last, ◌>>=◌, ptr, ◌>>=◌, at_end) refl in
            rw (step, none_left)
              (next_path_loop-Reaches rounds (truncate path (path.len - 1)) stops
                (truncate-last path stop stops w) valid (omega arith))
      ]

  pub next_path-Reaches :
      (path : IterPath) (stop : Stop) (stops : List Stop)
      → Shows path (frames_of (stop ∷ stops))
      → All (IsStop nodes deep) (stop ∷ stops)
      → Reaches nodes deep (next_path deep nodes path) (remaining (stop ∷ stops))
  unfolding next_path
  next_path-Reaches path stop stops w valid =
      next_path_loop-Reaches (path.len + 1) path (stop ∷ stops) w valid
        (omega (arith, len-Shows path stop stops w, length-frames_of stops))
