-- ===== src/Patricia/Index/Path/Frames.antt =====
-- `IterPath` is the list of its frames.
use minweight_store_cpp.Base.{ℕ, ◌+◌, ◌-◌, ◌≤◌, ◌<◌, ltb, leb, min, arith}
use minweight_store_cpp.Base.{
  List, [], ◌∷◌, ◌++◌, length, get_elem?, set, take, drop, ◌≡◌, sym, ap, ◌∙◌, length-append,
  length-set, length-take, append_assoc, append-nil, set-append, take-append-drop,
}
use minweight_store_cpp.Base.{inl, inr, Bool-cases, ltb→lt, ltb→le, leb→le}
use minweight_store_cpp.Base.Prefixes.{
  get_elem?-append_lt, get_elem?-append_ge, set-append_lt, set-append_ge, take-append, take-all,
  take-append_le, length-zero,
}
use minweight_store_cpp.Patricia.Index.{PutFrame}
use minweight_store_cpp.Patricia.Index.Path.{
  IterPath, push_frame, at, set_at, truncate, frames_for_insert,
}

-- The path holds these frames, from the root on; `unused` is what stands behind them in the array.
pub record Shows (path : IterPath) (frames : List PutFrame) : Type 0 where
  pub full : length path.stack ≡ 16
  pub len : path.len ≡ length frames
  pub over : length path.overflow ≡ path.len - 16
  pub unused : List PutFrame
  pub both : path.stack ++ path.overflow ≡ frames ++ unused

after_push :
    (frames unused : List PutFrame) (frame : PutFrame) (n : ℕ)
    → 0 < length unused
    → n ≡ length frames
    → (rest : List PutFrame) × (set (frames ++ unused) n frame ≡ (frames ++ (frame ∷ [])) ++ rest)
after_push frames [] frame n h e = absurd (omega arith)
after_push frames (u ∷ rest) frame n h e =
    (rest, rw e (set-append frames rest u frame ∙ sym (append_assoc frames (frame ∷ []) rest)))

module _ (path : IterPath) (frames : List PutFrame) (w : Shows path frames) where
  pub at-Shows : (i : ℕ) → i < length frames → at path i ≡ get_elem? frames i
  unfolding at
  at-Shows i h =
      let e = w.both in
      let right : get_elem? (path.stack ++ path.overflow) i ≡ get_elem? frames i =
        rw e (get_elem?-append_lt frames w.unused i h) in
      elim (Bool-cases (ltb i (length path.stack))) [
        | inl low ↦
            rw low (sym (get_elem?-append_lt path.stack path.overflow i (ltb→lt i _ low)) ∙ right)
        | inr high ↦
            rw high (sym (get_elem?-append_ge path.stack path.overflow i (ltb→le i _ high)) ∙ right)
      ]

  pub set_at-Shows :
      (i : ℕ) (frame : PutFrame)
      → i < length frames
      → Shows (set_at path i frame) (set frames i frame)
  unfolding set_at
  set_at-Shows i frame h =
      let e = w.both in
      let l = w.len in
      let o = w.over in
      let f = w.full in
      let right : set (path.stack ++ path.overflow) i frame ≡ set frames i frame ++ w.unused =
        rw e (set-append_lt frames w.unused i frame h) in
      elim (Bool-cases (ltb i (length path.stack))) [
        | inl low ↦ rw low (record {
          full = length-set path.stack i frame ∙ f;
          len = l ∙ sym (length-set frames i frame);
          over = o;
          unused = w.unused;
          both = sym (set-append_lt path.stack path.overflow i frame (ltb→lt i _ low)) ∙ right;
        })
        | inr high ↦ rw high (record {
          full = f;
          len = l ∙ sym (length-set frames i frame);
          over = length-set path.overflow (i - length path.stack) frame ∙ o;
          unused = w.unused;
          both = sym (set-append_ge path.stack path.overflow i frame (ltb→le i _ high)) ∙ right;
        })
      ]

  pub frames_for_insert-Shows : frames_for_insert path ≡ frames
  unfolding frames_for_insert
  frames_for_insert-Shows =
      let e = w.both in
      let l = w.len in
      sym (take-append path.len path.stack path.overflow)
      ∙ rw (e, l)
          (take-append_le (length frames) frames w.unused (omega arith)
            ∙ take-all (length frames) frames (omega arith))

  pub truncate-Shows : (n : ℕ) → n ≤ length frames → Shows (truncate path n) (take n frames)
  unfolding truncate
  truncate-Shows n h =
      let e = w.both in
      let l = w.len in
      let o = w.over in
      let f = w.full in
      let size : length (take n frames) ≡ n = omega (arith, length-take n frames) in
      let right : take n (path.stack ++ path.overflow) ≡ take n frames =
        rw e (take-append_le n frames w.unused h) in
      elim (Bool-cases (leb n (length path.stack))) [
        | inl low ↦
            let le = leb→le n _ low in
            rw low (record {
              full = f;
              len = sym size;
              over = omega arith;
              unused = drop n path.stack;
              both =
                  append-nil path.stack
                  ∙ sym (take-append-drop n path.stack)
                  ∙ ap (λ t. t ++ drop n path.stack)
                      (sym (take-append_le n path.stack path.overflow le) ∙ right);
            })
        | inr high ↦
            let k : n - length path.stack ≤ length path.overflow = omega arith in
            let gt : length path.stack ≤ min n (length path.stack) = ground arith in
            rw high (record {
              full = f;
              len = sym size;
              over = omega (arith, f, o, length-take (n - length path.stack) path.overflow, k);
              unused = [];
              both =
                  ap (λ t. t ++ take (n - length path.stack) path.overflow)
                    (sym (take-all (min n (length path.stack)) path.stack gt))
                  ∙ sym (take-append n path.stack path.overflow)
                  ∙ right
                  ∙ sym (append-nil (take n frames));
            })
      ]

  pub push_frame-Shows : (frame : PutFrame) → Shows (push_frame path frame) (frames ++ (frame ∷ []))
  unfolding push_frame
  push_frame-Shows frame =
      let e = w.both in
      let l = w.len in
      let o = w.over in
      let f = w.full in
      let more : length (frames ++ (frame ∷ [])) ≡ length frames + 1 =
        length-append frames (frame ∷ []) in
      let sizes : length path.stack + length path.overflow ≡ length frames + length w.unused =
        sym (length-append path.stack path.overflow)
        ∙ ap (λ (t : List PutFrame). length t) e
        ∙ length-append frames w.unused in
      elim (Bool-cases (ltb path.len (length path.stack))) [
        | inl low ↦
            let lt = ltb→lt path.len _ low in
            let (rest, placed) = after_push frames w.unused frame path.len (omega arith) l in
            rw low (record {
              full = length-set path.stack path.len frame ∙ f;
              len = omega arith;
              over = omega arith;
              unused = rest;
              both = sym (set-append_lt path.stack path.overflow path.len frame lt) ∙ rw e placed;
            })
        | inr high ↦
            let ge = ltb→le path.len _ high in
            let none_unused : w.unused ≡ [] = length-zero w.unused (omega arith) in
            rw high (record {
              full = f;
              len = omega arith;
              over = omega (arith, length-append path.overflow (frame ∷ []));
              unused = [];
              both =
                  sym (append_assoc path.stack path.overflow (frame ∷ []))
                  ∙ ap (λ t. t ++ (frame ∷ [])) (e ∙ rw none_unused (append-nil frames))
                  ∙ sym (append-nil (frames ++ (frame ∷ [])));
            })
      ]

-- What each operation of a path does to the list of its frames.
abbrev pub PathAnswer : IterPath → List PutFrame → Type 0
PathAnswer path frames =
    ((i : ℕ) → i < length frames → at path i ≡ get_elem? frames i)
    × ((i : ℕ) (frame : PutFrame)
        → i < length frames
        → Shows (set_at path i frame) (set frames i frame))
    × ((frame : PutFrame) → Shows (push_frame path frame) (frames ++ (frame ∷ [])))
    × ((n : ℕ) → n ≤ length frames → Shows (truncate path n) (take n frames))
    × (frames_for_insert path ≡ frames)

-- The array of 16 frames with the vector behind it is one list of frames, however long: on a path
-- that holds some frames `At` reads them, a write through `At` changes one, `Push` adds one behind
-- them, `Truncate` keeps the first ones, and `FramesForInsert` returns them all.
pub path_lem :
    (path : IterPath) (frames : List PutFrame) → Shows path frames → PathAnswer path frames
path_lem path frames w = (
  at-Shows path frames w,
  set_at-Shows path frames w,
  push_frame-Shows path frames w,
  truncate-Shows path frames w,
  frames_for_insert-Shows path frames w,
)
