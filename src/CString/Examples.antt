-- ===== src/CString/Examples.antt =====
-- The C functions at concrete texts.
use barehttp.Base.{◌≡◌, refl, some, pos, negsuc}
use barehttp.CString.{codes, after_last, atoi}
use barehttp.CString.Format.{decimal, print_int}
use barehttp.CString.Memory.{snprintf}

atoi_tests :
    (atoi (codes " \t42abc") ≡ pos 42)
    × (atoi (codes "-7") ≡ negsuc 6)
    × (atoi (codes "+0") ≡ pos 0)
    × (atoi (codes "x") ≡ pos 0)
    × (atoi (codes "4294967295") ≡ negsuc 0)
unfolding atoi codes
atoi_tests = (refl, refl, refl, refl, refl)

decimal_tests :
    (decimal 0 ≡ codes "0") × (decimal 8192 ≡ codes "8192") × (print_int (negsuc 0) ≡ codes "-1")
unfolding decimal codes print_int
decimal_tests = (refl, refl, refl)

extension : after_last b'.' (codes "/a.b/c.py") ≡ some (codes "py")
unfolding after_last codes
extension = refl

cut_off : snprintf 4 (codes "hello") ≡ (codes "hel", 5)
unfolding snprintf codes
cut_off = refl
