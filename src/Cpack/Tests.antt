-- ===== src/Cpack/Tests.antt =====
-- Runs of cpack.c on a block of twelve bytes, and its theorems there.
use randserver.Base.{ℕ, ◌+◌, ◌≡◌, true, some, List, [], ◌∷◌, length, arith}
use randserver.Cpack.{Cpack, pack_string, Cunpack, unpack_string}
use randserver.Cpack.Laws.{
  IsPacking, Packed, pack_all, unpack_all, total, unpack_all-pack_all, unpack_string-pack_string,
}
use randserver.Cpack.Values.{ushort_kind, width, pack_kind, unpack_kind, unpack_kind-pack_kind}

abbrev block : List ℕ
block = 7 ∷ 9 ∷ 0 ∷ 0 ∷ 0 ∷ 0 ∷ 0 ∷ 0 ∷ 0 ∷ 0 ∷ 0 ∷ 0 ∷ []

-- Two of ten bytes are in use.
abbrev packing : Cpack
packing = record { max_size = 10; size = 2; block = block }

packing-IsPacking : IsPacking packing
packing-IsPacking = record { within = omega arith; backed = omega arith; bounded = omega arith }

abbrev values : List (List ℕ)
values = (1 ∷ 2 ∷ []) ∷ (3 ∷ []) ∷ []

abbrev text : List ℕ
text = 65 ∷ 66 ∷ 67 ∷ []

abbrev large : List ℕ
large = block

-- The reader at the place where the next value is written.
abbrev from_here : Cpack → Cunpack
from_here cp' = record { unpack_size = 2; size = cp'.size; block = cp'.block }

abbrev reader_end : Cpack → Cunpack
reader_end cp' = record { unpack_size = cp'.size; size = cp'.size; block = cp'.block }

unpack_all-pack_all_example :
    (cp' : Cpack) × (pack_all packing values ≡ some (true, cp'))
    × Packed packing (total values) cp'
    × (unpack_all (from_here cp') values ≡ some (some values, reader_end cp'))
unpack_all-pack_all_example =
    unpack_all-pack_all packing values packing-IsPacking (omega arith, (omega arith, tt))
      (omega arith)

unpack_kind-pack_kind_example :
    (cp' : Cpack) × (pack_kind ushort_kind packing 515 ≡ some (true, cp'))
    × Packed packing (width ushort_kind) cp'
    × (unpack_kind ushort_kind (from_here cp') ≡ some (some 515, reader_end cp'))
unpack_kind-pack_kind_example =
    unpack_kind-pack_kind ushort_kind packing 515 packing-IsPacking (omega arith) (omega arith)

unpack_string-pack_string_example :
    (cp' : Cpack) × (pack_string packing (length text) text ≡ some (true, cp'))
    × Packed packing (length text + 2) cp'
    × (unpack_string (from_here cp') ≡ some (some text, reader_end cp'))
unpack_string-pack_string_example =
    unpack_string-pack_string packing text packing-IsPacking (omega arith) (omega arith)
