-- ===== src/Strconvx/Tests.antt =====
-- x/strconvx: the theorems and some runs at concrete inputs.
use devicecode_go.Base.{◌-◌, ◌^◌, ◌≡◌, refl, some, arith}
use devicecode_go.Base.Int.{negsuc}
use devicecode_go.Base.Text.{Bytes, codes}
use devicecode_go.Strconvx.{emit, scan, format_int, parse_uint, parse_int}
use devicecode_go.Strconvx.RoundTrip.{parse_int-format_int}

int_min : format_int (negsuc (2 ^ 63 - 1)) 10 ≡ some (codes "-9223372036854775808")
unfolding format_int emit
int_min = refl

-- One more than the greatest int64 is read as the least one, where its bit size is given.
int_end : parse_int (codes "9223372036854775808") 10 64 ≡ some (negsuc (2 ^ 63 - 1))
unfolding parse_int scan
int_end = refl

-- A number that leaves uint64 is read as its remainder.
uint_wraps : parse_uint (codes "18446744073709551617") 10 64 ≡ some 1
unfolding parse_uint scan
uint_wraps = refl

prefixed : parse_int (codes "-0x1F") 0 32 ≡ some (negsuc 30)
unfolding parse_int scan
prefixed = refl

parse_int-format_int_example :
    (s : Bytes) × (format_int (negsuc 41) 10 ≡ some s) × (parse_int s 10 32 ≡ some (negsuc 41))
parse_int-format_int_example =
    parse_int-format_int (negsuc 41) 10 32 (omega arith) (omega arith) (omega arith) (omega arith)
