-- ===== src/Fs/FileSystem.antt =====
-- src/fs/file_system.cpp. The system calls are parameters, functions of the world outside the program;
-- where a call returns -1, they give `none`, but for `flock`, whose result is compared as an `int`. So
-- is a timeout, which is a `double`.
use Prim.Native.Nat.{bit_or, ◌*◌, ◌+◌}
use Prim.Native.String.{String}
use boltdb_cpp.Base.{
  ℕ, zero, suc, Bool, true, ◌&&◌, not, ◌⊎◌, inl, inr, List, Option, none, some, ◌==◌, if◌then◌else◌,
}
use boltdb_cpp.Util.Status.{Status, ok_status, failed, status_err}

-- What is called of the operating system and of the timer.
pub record Posix (W D : Type 0) : Type 0 where
  pub open_file : String → ℕ → ℕ → W → Option ℕ × W
  pub lseek : ℕ → ℕ → W → Option ℕ × W
  pub read : ℕ → ℕ → W → Option (List ℕ) × W
  pub write : ℕ → List ℕ → W → Option ℕ × W
  pub fdatasync : ℕ → W → ℕ × W
  pub flock : ℕ → ℕ → W → ℕ × W
  pub close : ℕ → W → W
  pub fstat : ℕ → W → Option ℕ × W
  pub access : String → W → ℕ × W
  pub remove : String → W → Option ℕ × W
  pub error : W → String
  pub strerror : ℕ → String
  pub sleep : W → W
  pub is_timeout : D → W → W → Bool
  pub is_positive : D → Bool
  pub seconds : ℕ → D
  pub would_block : ℕ

-- `IOException`, by the parts of its message.
pub data IoException : Type 0 where
  seek_failed : ℕ → String → String → IoException
  read_failed : String → String → IoException
  write_failed : String → String → IoException

-- `UnixFileHandle`
pub record FileHandle : Type 0 where
  pub path : String
  pub fd : ℕ
  pub flocked : Bool

-- `LOCK_SH`, `LOCK_EX`, `LOCK_UN`
abbrev pub lock_sh : ℕ
lock_sh = 1

abbrev pub lock_ex : ℕ
lock_ex = 2

abbrev pub lock_un : ℕ
lock_un = 8

-- `static_cast<std::uintmax_t>(-1)`
abbrev pub no_size : ℕ
no_size = 0xFFFFFFFFFFFFFFFF

module _ {W D : Type 0} (os : Posix W D) where
  unfoldable pub set_file_pointer : FileHandle → ℕ → W → Option IoException × W
  set_file_pointer f offset w =
      let (result, w') = os.lseek f.fd offset w in
      elim result [
        | none ↦ (some (seek_failed offset f.path (os.error w')), w')
        | some at ↦ (none, w')
      ]

  unfoldable pub read : FileHandle → ℕ → ℕ → W → (IoException ⊎ List ℕ) × W
  read f nbytes offset w =
      let (sought, w₁) = set_file_pointer f offset w in
      elim sought [
        | some e ↦ (inl e, w₁)
        | none ↦
            let (bytes_read, w₂) = os.read f.fd nbytes w₁ in
            elim bytes_read [
              | none ↦ (inl (read_failed f.path (os.error w₂)), w₂)
              | some bs ↦ (inr bs, w₂)
            ]
      ]

  unfoldable pub write : FileHandle → List ℕ → ℕ → W → (IoException ⊎ ℕ) × W
  write f buffer offset w =
      let (sought, w₁) = set_file_pointer f offset w in
      elim sought [
        | some e ↦ (inl e, w₁)
        | none ↦
            let (bytes_written, w₂) = os.write f.fd buffer w₁ in
            elim bytes_written [
              | none ↦ (inl (write_failed f.path (os.error w₂)), w₂)
              | some n ↦ (inr n, w₂)
            ]
      ]

  unfoldable pub fdatasync : FileHandle → W → Status × W
  fdatasync f w =
      let (res, w') = os.fdatasync f.fd w in
      (if not (res == 0) then failed status_err (os.error w') else ok_status, w')

  -- The loop of `flock` on fuel; `start` is the world in which the timer was made.
  unfoldable pub flock_loop : ℕ → FileHandle → ℕ → D → W → W → Option (Status × FileHandle × W)
  flock_loop zero f operation timeout start w = none
  flock_loop (suc fuel) f operation timeout start w =
      let r = os.flock f.fd operation w in
      let again = flock_loop fuel f operation timeout start (os.sleep r.1) in
      if r.0 == 0
      then some (ok_status, record f { flocked = true }, r.1)
      else (if not (r.0 == os.would_block)
          then some (failed status_err (os.error r.1), f, r.1)
          else (if os.is_positive timeout && os.is_timeout timeout start r.1
              then some (failed status_err "flock timeout", f, r.1)
              else again))

  unfoldable pub flock : ℕ → FileHandle → ℕ → D → W → Option (Status × FileHandle × W)
  flock fuel f operation timeout w = flock_loop fuel f operation timeout w w

  -- `flock(fd_, LOCK_UN)` names the member function: the descriptor is its operation, `LOCK_UN` its
  -- timeout. The status is dropped. A descriptor of a handle is never -1.
  unfoldable pub close : ℕ → FileHandle → W → Option W
  close fuel f w =
      if f.flocked
      then (elim (flock fuel f f.fd (os.seconds lock_un) w) [
        | none ↦ none
        | some r ↦ some (os.close f.fd r.2)
      ])
      else some (os.close f.fd w)

  -- `FileSystem::open`; the constructor leaves `flocked_` as the allocator left it.
  unfoldable pub open_file : Bool → String → ℕ → ℕ → W → Option FileHandle × W
  open_file flocked path oflag permission w =
      let (fd, w') = os.open_file path oflag permission w in
      elim fd [
        | none ↦ (none, w')
        | some d ↦ (some (record { path = path; fd = d; flocked = flocked }), w')
      ]

  -- `FileSystem::create`, with the numbers of `O_RDWR`, `O_CREAT` and `O_TRUNC` on Linux.
  abbrev pub create_file : Bool → String → W → Option FileHandle × W
  create_file flocked path w =
      open_file flocked path (bit_or (bit_or 0x2 0x40) 0x200) (6 * 64 + 6 * 8 + 6) w

  unfoldable pub exists : FileHandle → W → Bool × W
  exists f w = let (res, w') = os.access f.path w in (res == 0, w')

  -- The error text is that of the number -1, which is not an error's.
  unfoldable pub remove : FileHandle → W → Status × W
  remove f w =
      let (res, w') = os.remove f.path w in
      (elim res [ none ↦ failed status_err (os.strerror 0xFFFFFFFF) | some n ↦ ok_status ], w')

  unfoldable pub file_size : FileHandle → W → ℕ × W
  file_size f w = let (res, w') = os.fstat f.fd w in (elim res [ none ↦ no_size | some n ↦ n ], w')
