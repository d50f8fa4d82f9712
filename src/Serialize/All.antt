-- ===== src/Serialize/All.antt =====
-- engine/lualib/serialize.c: `serialize_pack` against the relation of packing.
use randserver.Base.{
  ℕ, ◌+◌, ◌^◌, ◌<◌, ◌≡◌, refl, sym, ap, subst, Bool, false, some, List, [], ◌∷◌, ◌++◌, length,
  append_assoc, append-nil, arith,
}
use randserver.Serialize.{
  Value, Heap, Memory, SerializeData, serialize_clean, pack_args, serialize_pack,
}
use randserver.Serialize.Buffer.{HasMemory, Holds, serialize_clean-Holds}
use randserver.Serialize.Graph.{numbered, named, IsPlain, IsPlainHeap, Sets, Packs, Packs-more}
use randserver.Serialize.Unmet.{unmet, unmet-more, unmet-all, Packs-few}
use randserver.Serialize.Pack.{pack_obj_lem}

-- Packing of several values in a row, with the values that unpacking gives.
pub data PacksAll (support : Bool) (heap : Heap)
    : List ℕ → List Value → List ℕ → List ℕ → Sets → List Value → Type 0 where
  end : {met : List ℕ} → PacksAll support heap met [] met [] [] []
  next :
      {met met1 met2 : List ℕ} (v : Value) {vs : List Value} {b1 b2 : List ℕ} {s1 s2 : Sets}
      {values : List Value}
      → Packs support heap met v met1 b1 s1
      → PacksAll support heap met1 vs met2 b2 s2 values
      → PacksAll support heap met (v ∷ vs) met2 (b1 ++ b2) (s1 ++ s2) (named met1 v ∷ values)

abbrev pub AllPlain : Bool → Heap → List Value → Type 0
AllPlain support heap [] = Unit
AllPlain support heap (v ∷ vs) = IsPlain support heap v × AllPlain support heap vs

module _ (memory : Memory) (m : HasMemory memory) (support : Bool) (heap : Heap)
    (plain : IsPlainHeap support heap) where
  pack_args_lem :
      (args : List Value) (met : List ℕ) (ser : SerializeData) (xs : List ℕ)
      → Holds support ser xs (length met)
      → unmet (length heap) met < length heap + 1
      → length met + unmet (length heap) met < 2147483648
      → AllPlain support heap args
      → (met' : List ℕ) × (bytes : List ℕ) × (sets : Sets) × (values : List Value)
        × (ser' : SerializeData) × (pack_args memory
              (length heap + 1)
              heap
              ser
              (numbered 1 met)
              args
            ≡ some (ser', numbered 1 met'))
        × PacksAll support heap met args met' bytes sets values
        × Holds support ser' (xs ++ bytes) (length met')
  unfolding pack_args
  pack_args_lem [] met ser xs hold few bound p = (
    met,
    [],
    [],
    [],
    ser,
    refl,
    end,
    subst (λ l. Holds support ser l (length met)) (sym (append-nil xs)) hold,
  )
  pack_args_lem (v ∷ vs) met ser xs hold few bound (p, ps) =
      let (met1, b1, s1, ser1, e1, k1, h1) =
        pack_obj_lem memory m support heap plain (length heap + 1) met v ser xs hold few bound p in
      let (more1, same1) = Packs-more k1 in
      let few1 : unmet (length heap) met1 < length heap + 1 =
        omega (arith, ap (unmet (length heap)) same1, unmet-more (length heap) met more1) in
      let (met2, b2, s2, values, ser2, e2, k2, h2) =
        pack_args_lem vs met1 ser1 (xs ++ b1) h1 few1 (omega (arith, Packs-few k1)) ps in
      (
        met2,
        b1 ++ b2,
        s1 ++ s2,
        named met1 v ∷ values,
        ser2,
        rw (e1, e2) refl,
        next v k1 k2,
        subst (λ l. Holds support ser2 l (length met2)) (append_assoc xs b1 b2) h2,
      )

  -- With memory, `serialize_pack` of plain values ends without an error and leaves the bytes of the values.
  pub serialize_pack_lem :
      (ser : SerializeData) (args : List Value)
      → length heap < 2 ^ 31
      → ser.support ≡ support
      → length ser.init_buff ≡ ser.init_size
      → (ser.own ≡ false → ser.data_cells ≡ ser.init_buff)
      → AllPlain support heap args
      → (met : List ℕ) × (bytes : List ℕ) × (sets : Sets) × (values : List Value)
        × (ser' : SerializeData) × (serialize_pack memory heap ser args ≡ some ser')
        × PacksAll support heap [] args met bytes sets values
        × Holds support ser' bytes (length met)
  unfolding serialize_pack numbered
  serialize_pack_lem ser args small on len same p =
      let clean =
        subst (λ b. Holds b (serialize_clean ser) [] 0) on (serialize_clean-Holds ser len same) in
      let (met, bytes, sets, values, ser', e, all, hold) =
        pack_args_lem args [] (serialize_clean ser) [] clean
          (omega (arith, unmet-all (length heap))) (omega (arith, unmet-all (length heap))) p in
      (met, bytes, sets, values, ser', rw e refl, all, hold)
