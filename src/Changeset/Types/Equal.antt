-- ===== src/Changeset/Types/Equal.antt =====
-- `Value.Equal` as a relation.
use go_geodiff.Common.{◌^◌, ◌<◌, ◌≡◌, ◌≢◌, refl, arith, true, equal_bytes_iff}
use go_geodiff.Changeset.Types.{
  Value, undefined, int, double, text, blob, null, equal_double, equal,
}

-- A value whose double, if it is one, is not the negative zero.
abbrev pub IsExact : Value → Type 0
IsExact (double f) = (f ≢ 2 ^ 63) × (f < 2 ^ 64)
IsExact v = Unit {0}

-- Values that `Equal` joins are the same value, when a double is a 64-bit pattern other than the
-- negative zero.
pub equal→eq : (v w : Value) → IsExact v → IsExact w → equal v w ≡ true → v ≡ w
unfolding equal equal_double
equal→eq undefined undefined hv hw e = refl
equal→eq null null hv hw e = refl
equal→eq (int m) (int n) hv hw e = ground arith
equal→eq (double f) (double g) hv hw e = ground arith
equal→eq (text s) (text t) hv hw e = ground (arith, equal_bytes_iff s t)
equal→eq (blob a) (blob b) hv hw e = ground (arith, equal_bytes_iff a b)
equal→eq _ _ hv hw e = cc
