-- ===== src/BitArray/Tests.antt =====
-- Bit arrays.
use randserver.Base.{◌≡◌, true, some, [], ◌∷◌, ltb, ◌==◌, ◌&&◌, if◌then◌else◌, arith}
use randserver.BitArray.{BitArray, get_bit, set_bit}
use randserver.BitArray.Bits.{IsValid, get_bit-set_bit}

abbrev six : BitArray
six = record { uarray = 5 ∷ 2 ∷ []; array_size = 6 }

get_bit-set_bit_example :
    (array' : BitArray) × (set_bit six 4 true ≡ some (ltb 4 6, array'))
    × IsValid array'
    × (array'.array_size ≡ 6)
    × (get_bit array' 5 ≡ (if (4 == 5) && ltb 5 6 then some true else get_bit six 5))
get_bit-set_bit_example = get_bit-set_bit six 4 5 true (omega arith)
