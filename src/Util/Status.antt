-- ===== src/Util/Status.antt =====
-- include/boltdb/util/status.hpp.
use Prim.Native.String.{String}
use boltdb_cpp.Base.{Bool, true, false}

pub data StatusType : Type 0 where
  status_ok status_err status_corrupt : StatusType

pub record Status : Type 0 where
  pub status_type : StatusType
  pub message : String

-- `Status()`
abbrev pub ok_status : Status
ok_status = record { status_type = status_ok; message = "" }

-- `Status(status_type, message)`
abbrev pub failed : StatusType → String → Status
failed t message = record { status_type = t; message = message }

-- `operator bool`, and `ok()`, which says the same.
abbrev pub is_ok : Status → Bool
is_ok s = elim s.status_type [ status_ok ↦ true | status_err ↦ false | status_corrupt ↦ false ]
