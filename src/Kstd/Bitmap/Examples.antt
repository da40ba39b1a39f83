-- ===== src/Kstd/Bitmap/Examples.antt =====
-- A map of twelve bits: tests of kernel/kstd/Bitmap.h, and the theorem at it.
use nusa_os.Common.{◌≡◌, refl, true, false, ◌∷◌, [], ◌==◌, if◌then◌else◌, arith}
use nusa_os.Kstd.Bitmap.{make, get_bit, set_bit}
use nusa_os.Kstd.Bitmap.Laws.{make-Fits, get-set}

full_bytes : make 12 true ≡ record { bytes = 255 ∷ 255 ∷ [] }
unfolding make
full_bytes = refl

cleared_bytes : set_bit (make 12 true) 9 false ≡ record { bytes = 255 ∷ 253 ∷ [] }
unfolding make set_bit
cleared_bytes = refl

get-set_example :
    get_bit (set_bit (make 12 false) 9 true) 1
    ≡ (if 9 == 1 then true else get_bit (make 12 false) 1)
get-set_example = get-set (make 12 false) 12 9 1 true (make-Fits 12 false) (omega arith)
