-- ===== src/Fs/Locks.antt =====
-- `flock` and `close` of src/fs/file_system.cpp.
use boltdb_cpp.Base.{ℕ, suc, ◌<◌, ◌^◌, ◌≡◌, refl, true, ◌⊎◌, inl, inr, Option, some, arith}
use boltdb_cpp.Util.Status.{Status, ok_status, failed, status_err}
use boltdb_cpp.Fs.FileSystem.{Posix, FileHandle, flock_loop, flock, close}

-- The result -1 of a system call as an `int` of 32 bits.
abbrev pub minus_one : ℕ
minus_one = 0xFFFFFFFF

-- What the manual says of the call: it returns 0 or -1; `EWOULDBLOCK` is a positive `int`.
pub record Documented {W D : Type 0} (os : Posix W D) : Type 0 where
  pub result :
      (fd operation : ℕ) (w : W)
      → ((os.flock fd operation w).0 ≡ 0) ⊎ ((os.flock fd operation w).0 ≡ minus_one)
  pub positive : os.would_block < 2 ^ 31

-- One call of the system, whatever the timeout is.
abbrev pub Once :
    {W D : Type 0} → Posix W D → FileHandle → ℕ → W → Option (Status × FileHandle × W) → Type 0
Once os f operation w r =
    let out = os.flock f.fd operation w in
    ((out.0 ≡ 0) × (r ≡ some (ok_status, record f { flocked = true }, out.1)))
    ⊎ ((out.0 ≡ minus_one) × (r ≡ some (failed status_err (os.error out.1), f, out.1)))

-- Where the system call returns 0 or -1 and `EWOULDBLOCK` is positive, `flock` makes that call once: it
-- gives OK and marks the handle as locked on 0, and reports the error on -1. It does not try again,
-- sleep or look at the timeout; the one call may itself wait for the lock.
pub flock-Once :
    {W D : Type 0}
    → (os : Posix W D) (fuel operation : ℕ) (timeout : D) (f : FileHandle) (w : W) → Documented os
    → Once os f operation w (flock os (suc fuel) f operation timeout w)
unfolding flock flock_loop
flock-Once os fuel operation timeout f w d = elim (d.result f.fd operation w) [
  | inl e ↦ inl (e, ground (arith, e))
  | inr e ↦ inr (e, ground (arith, e, d.positive))
]

-- `close` of a locked handle asks the system for a lock operation whose number is the descriptor, instead
-- of `LOCK_UN`, and then closes the descriptor.
pub close_flocks :
    {W D : Type 0}
    → (os : Posix W D) (fuel : ℕ) (f : FileHandle) (w : W) → Documented os
    → f.flocked ≡ true
    → close os (suc fuel) f w ≡ some (os.close f.fd (os.flock f.fd f.fd w).1)
unfolding close
close_flocks os fuel f w d l = elim (flock-Once os fuel f.fd (os.seconds 8) f w d) [
  | inl (e, r) ↦ rw (close, r) (rw l refl)
  | inr (e, r) ↦ rw (close, r) (rw l refl)
]
