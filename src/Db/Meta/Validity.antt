-- ===== src/Db/Meta/Validity.antt =====
-- `Meta::validate` and `Meta::equals` of src/db/db.cpp.
use boltdb_cpp.Base.{◌≡◌, ◌≢◌, ◌↔◌, subst, true, arith}
use boltdb_cpp.Db.Meta.{Meta, validate, equals, sum64, db_magic, db_version}
use boltdb_cpp.Util.Status.{is_ok, status_corrupt}

-- `validate` reports OK exactly when the marker, the version and the checksum are what they must
-- be, and corruption exactly when the checksum alone is another.
pub validate_cases :
    (m : Meta)
    → ((is_ok (validate m) ≡ true)
        ↔ ((m.magic ≡ db_magic) × (m.version ≡ db_version) × (m.checksum ≡ sum64 m)))
      × (((validate m).status_type ≡ status_corrupt)
          ↔ ((m.magic ≡ db_magic) × (m.version ≡ db_version) × (m.checksum ≢ sum64 m)))
unfolding validate
validate_cases m = ground arith

equals_refl : (m : Meta) → equals m m ≡ true
unfolding equals
equals_refl m = ground arith

equals→eq : (m n : Meta) → equals m n ≡ true → m ≡ n
unfolding equals
equals→eq m n h = ground arith

-- `equals` holds exactly of objects that agree in all ten fields.
equals_iff : (m n : Meta) → (equals m n ≡ true) ↔ (m ≡ n)
equals_iff m n = (equals→eq m n, λ e. subst (λ k. equals m k ≡ true) e (equals_refl m))
