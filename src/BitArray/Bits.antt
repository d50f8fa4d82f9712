-- ===== src/BitArray/Bits.antt =====
-- engine/tool/bit.c: reading a bit after a write.
use randserver.Base.{
  ℕ, zero, suc, ◌+◌, ◌-◌, ◌*◌, ◌/◌, ◌%◌, ◌≤◌, ◌<◌, ◌≡◌, refl, sym, ap, ◌∙◌, Bool, true, false,
  Option, some, List, length, get_elem?, get_elem?-set, get_elem?-some, length-set, set, ltb, leb,
  ◌==◌, ==→eq, ◌&&◌, Bool-cases, inl, inr, if◌then◌else◌, arith,
}
use randserver.BitArray.{
  BitArray, create_bit_array, has_bit, with_bit, without_bit, get_bit, set_bit,
}

below_four : (P : ℕ → Type 0) → P 0 → P 1 → P 2 → P 3 → (k : ℕ) → k < 4 → P k
below_four P p0 p1 p2 p3 zero h = p0
below_four P p0 p1 p2 p3 (suc zero) h = p1
below_four P p0 p1 p2 p3 (suc (suc zero)) h = p2
below_four P p0 p1 p2 p3 (suc (suc (suc zero))) h = p3
below_four P p0 p1 p2 p3 (suc (suc (suc (suc k)))) h = absurd (omega arith)

abbrev WithAt : ℕ → ℕ → ℕ → Type 0
WithAt w k j = has_bit (with_bit w k) j ≡ (if k == j then true else has_bit w j)

abbrev WithoutAt : ℕ → ℕ → ℕ → Type 0
WithoutAt w k j = has_bit (without_bit w k) j ≡ (if k == j then false else has_bit w j)

with-WithAt : (w k j : ℕ) → k < 4 → j < 4 → WithAt w k j
with-WithAt w k j h g =
    below_four (λ k. WithAt w k j)
      (below_four (WithAt w 0) (ground arith) (ground arith) (ground arith) (ground arith) j g)
      (below_four (WithAt w 1) (ground arith) (ground arith) (ground arith) (ground arith) j g)
      (below_four (WithAt w 2) (ground arith) (ground arith) (ground arith) (ground arith) j g)
      (below_four (WithAt w 3) (ground arith) (ground arith) (ground arith) (ground arith) j g) k h

without-WithoutAt : (w k j : ℕ) → k < 4 → j < 4 → WithoutAt w k j
without-WithoutAt w k j h g =
    below_four (λ k. WithoutAt w k j)
      (below_four (WithoutAt w 0) (ground arith) (ground arith) (ground arith) (ground arith) j g)
      (below_four (WithoutAt w 1) (ground arith) (ground arith) (ground arith) (ground arith) j g)
      (below_four (WithoutAt w 2) (ground arith) (ground arith) (ground arith) (ground arith) j g)
      (below_four (WithoutAt w 3) (ground arith) (ground arith) (ground arith) (ground arith) j g) k
      h

-- Every bit has a word.
abbrev pub IsValid : BitArray → Type 0
IsValid array = array.array_size ≤ 4 * length array.uarray

abbrev stored_word : Bool → ℕ → ℕ → ℕ
stored_word b w k = if b then with_bit w k else without_bit w k

stored_lem :
    (b : Bool) (w k j : ℕ)
    → k < 4
    → j < 4
    → has_bit (stored_word b w k) j ≡ (if k == j then b else has_bit w j)
stored_lem true w k j h g = with-WithAt w k j h g
stored_lem false w k j h g = without-WithoutAt w k j h g

-- Reading after a write.
get_lem :
    (array : BitArray) (index j w : ℕ) (b : Bool)
    → IsValid array
    → index < array.array_size
    → get_elem? array.uarray (index / 4) ≡ some w
    → get_bit
        (record array { uarray = set array.uarray (index / 4) (stored_word b w (index % 4)) })
        j
      ≡ (if (index == j) && ltb j array.array_size then some b else get_bit array j)
unfolding get_bit
get_lem array index j w b valid inside e = elim (Bool-cases (leb array.array_size j)) [
  | inl out ↦
      let outside : ltb j array.array_size ≡ false = ground arith in
      let never : ((index == j) && ltb j array.array_size) ≡ false = ground arith in
      rw (out, never) refl
  | inr within ↦
      let after =
        get_elem?-set array.uarray (index / 4) (j / 4) (stored_word b w (index % 4))
          (omega arith) in
      elim (Bool-cases (index / 4 == j / 4)) [
        | inl same ↦
            let there : get_elem? (set array.uarray (index / 4) (stored_word b w (index % 4)))
                  (j / 4)
                ≡ some (stored_word b w (index % 4)) =
              after ∙ rw same refl in
            let before : get_elem? array.uarray (j / 4) ≡ some w =
              ap (get_elem? array.uarray) (sym (==→eq _ _ same)) ∙ e in
            let bit = stored_lem b w (index % 4) (j % 4) (omega arith) (omega arith) in
            elim (Bool-cases (index % 4 == j % 4)) [
              | inl both ↦
                  let hit : ((index == j) && ltb j array.array_size) ≡ true = ground arith in
                  rw (within, there, hit) (ap some (bit ∙ rw both refl))
              | inr apart ↦
                  let miss : ((index == j) && ltb j array.array_size) ≡ false = ground arith in
                  rw (within, there, miss, before) (ap some (bit ∙ rw apart refl))
            ]
        | inr differ ↦
            let there : get_elem? (set array.uarray (index / 4) (stored_word b w (index % 4)))
                  (j / 4)
                ≡ get_elem? array.uarray (j / 4) =
              after ∙ rw differ refl in
            let never : ((index == j) && ltb j array.array_size) ≡ false = ground arith in
            rw (within, there, never) refl
      ]
]

-- `set_bit` and then `get_bit`
pub get_bit-set_bit :
    (array : BitArray) (index j : ℕ) (b : Bool)
    → IsValid array
    → (array' : BitArray) × (set_bit array index b ≡ some (ltb index array.array_size, array'))
      × IsValid array'
      × (array'.array_size ≡ array.array_size)
      × (get_bit array' j
          ≡ (if (index == j) && ltb j array.array_size then some b else get_bit array j))
unfolding set_bit
get_bit-set_bit array index j b valid = elim (Bool-cases (leb array.array_size index)) [
  | inl out ↦
      let outside : ltb index array.array_size ≡ false = ground arith in
      let never : ((index == j) && ltb j array.array_size) ≡ false = ground arith in
      (array, rw (out, outside) refl, valid, refl, rw never refl)
  | inr within ↦
      let inside : ltb index array.array_size ≡ true = ground arith in
      let (w, e) = get_elem?-some array.uarray (index / 4) (ground arith) in
      (
        record array { uarray = set array.uarray (index / 4) (stored_word b w (index % 4)) },
        rw (within, inside, e) refl,
        omega (arith, length-set array.uarray (index / 4) (stored_word b w (index % 4))),
        refl,
        get_lem array index j w b valid (ground arith) e,
      )
]

-- `create_bit_array`, with memory
pub create_bit_array-IsValid :
    (malloc : ℕ → Option (List ℕ)) (size : ℕ)
    → ((n : ℕ) → (block : List ℕ) × (malloc n ≡ some block) × (length block ≡ n / 4))
    → (array : BitArray) × (create_bit_array malloc size ≡ some array)
      × IsValid array
      × (array.array_size ≡ size)
unfolding create_bit_array
create_bit_array-IsValid malloc size memory =
    let (block, e, _) = memory 16 in
    let (words, e', len) = memory (4 * (size + 4 - 1) / 4) in
    (record { uarray = words; array_size = size }, rw (e, e') refl, omega arith, refl)
