-- ===== src/Util/Slice/Calls.antt =====
-- The calls of a client of `ByteSlice` (src/util/slice.cpp, include/boltdb/util/slice.hpp).
use boltdb_cpp.Base.{
  ℕ, ◌≤◌, ◌<◌, ◌≡◌, refl, inl, inr, List, Option, some, ltb, length, arith, Bool-cases,
}
use boltdb_cpp.Util.RefCount.{pointer}
use boltdb_cpp.Util.Slice.Buffers.{
  Slices, view, size, construct, construct_from, construct_copy, construct_move, assign,
  assign_move, destroy, append, reserve, remove_prefix, set_byte,
}
use boltdb_cpp.Util.Slice.Release.{IsValid}
use boltdb_cpp.Util.Slice.Growth.{content_lem, grow_lem}
use boltdb_cpp.Util.Slice.Bytes.{remove_prefix_lem, set_byte_lem}
use boltdb_cpp.Util.Slice.Appending.{append_lem, tail_bound}
use boltdb_cpp.Util.Slice.Lifetimes.{Succeeds, construct_lem, construct_from_lem}
use boltdb_cpp.Util.Slice.Assignments.{
  construct_copy_lem, construct_move_lem, assign_lem, assign_move_lem, destroy_lem,
}

pub data Call : Type 0 where
  makes : Call
  makes_from : List ℕ → Call
  copies : ℕ → Call
  moves : ℕ → Call
  copy_assigns : ℕ → ℕ → Call
  move_assigns : ℕ → ℕ → Call
  appends : ℕ → ℕ → Call
  reserves : ℕ → ℕ → Call
  removes_prefix : ℕ → ℕ → Call
  sets_byte : ℕ → ℕ → ℕ → Call
  destroys : ℕ → Call

abbrev pub call : Call → Slices → Option Slices
call makes s = construct s
call (makes_from bytes) s = construct_from bytes s
call (copies j) s = construct_copy j s
call (moves j) s = construct_move j s
call (copy_assigns i j) s = assign i j s
call (move_assigns i j) s = assign_move i j s
call (appends i v) s = append i v s
call (reserves i sz) s = reserve i sz s
call (removes_prefix i index) s = remove_prefix i index s
call (sets_byte i index v) s = set_byte i index v s
call (destroys i) s = destroy i s

-- A slice that can be copied: it was neither moved from nor destroyed.
abbrev pub Owns : ℕ → Slices → Type 0
Owns j s = (c : ℕ) × (pointer s.refs.owners j ≡ some c)

-- The objects of a call exist, what is copied was not moved from, and an index is inside the slice.
abbrev pub Allowed : Call → Slices → Type 0
Allowed makes s = Unit {0}
Allowed (makes_from bytes) s = Unit {0}
Allowed (copies j) s = (j < length s.views) × Owns j s
Allowed (moves j) s = j < length s.views
Allowed (copy_assigns i j) s = (i < length s.views) × (j < length s.views) × Owns j s
Allowed (move_assigns i j) s = (i < length s.views) × (j < length s.views)
Allowed (appends i v) s = i < length s.views
Allowed (reserves i sz) s = i < length s.views
Allowed (removes_prefix i index) s = (i < length s.views) × (index ≤ size (view s.views i))
Allowed (sets_byte i index v) s = (i < length s.views) × (index < size (view s.views i))
Allowed (destroys i) s = i < length s.views

reserve_lem : (i sz : ℕ) (s : Slices) → i < length s.views → IsValid s → Succeeds (reserve i sz s)
unfolding reserve
reserve_lem i sz s lt ok = elim (Bool-cases (ltb (view s.views i).cap sz)) [
  | inl q ↦
      let (bytes, shown, _) = content_lem s.buffers (view s.views i) (ok.shape.fits i) in
      let high = tail_bound s.buffers (view s.views i) (ok.shape.fits i) in
      let (s', e, ok', _, _) = grow_lem i sz s bytes lt ok shown (ground (arith, q, high)) in
      (s', rw q e, ok')
  | inr q ↦ (s, rw q refl, ok)
]

-- In a state where every counter counts its owners, and every slice fits a buffer that is alive, each call
-- on slices that exist, which copies no slice that was moved from and keeps to its indices, ends in such a
-- state again: it reads and writes inside buffers that are alive, frees a buffer once, with the size it
-- was allocated with, and no buffer is left without a slice.
pub call_lem : (c : Call) (s : Slices) → Allowed c s → IsValid s → Succeeds (call c s)
call_lem makes s h ok = let (s', e, ok', _) = construct_lem s ok in (s', e, ok')
call_lem (makes_from bytes) s h ok =
    let (s', e, ok', _) = construct_from_lem s ok bytes in (s', e, ok')
call_lem (copies j) s (lt, (c, e)) ok = construct_copy_lem s ok j lt c e
call_lem (moves j) s lt ok = construct_move_lem s ok j lt
call_lem (copy_assigns i j) s (lt, lt', (c, e)) ok = assign_lem s ok i lt j lt' c e
call_lem (move_assigns i j) s (lt, lt') ok = assign_move_lem s ok i lt j lt'
call_lem (appends i v) s lt ok =
    let (bytes, shown, _) = content_lem s.buffers (view s.views i) (ok.shape.fits i) in
    let (s', e, ok', _, _) = append_lem i v s bytes lt ok shown in (s', e, ok')
call_lem (reserves i sz) s lt ok = reserve_lem i sz s lt ok
call_lem (removes_prefix i index) s (lt, h) ok = remove_prefix_lem i index s lt ok h
call_lem (sets_byte i index v) s (lt, h) ok = set_byte_lem i index v s lt ok h
call_lem (destroys i) s lt ok = destroy_lem s ok i lt
