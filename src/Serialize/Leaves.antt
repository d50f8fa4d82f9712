-- ===== src/Serialize/Leaves.antt =====
-- engine/lualib/serialize.c: the packing of values other than tables.
use randserver.Base.{
  ℕ, ◌^◌, ◌<◌, ◌≡◌, refl, ap, ◌∙◌, subst, Bool, true, Option, some, List, [], ◌∷◌, ◌++◌, length,
  append_assoc, ltb, Bool-cases, inl, inr, if◌then◌else◌, if-true, ◌>>=◌, arith,
}
use randserver.Base.Int.{ℤ, pos, ltb_ℤ, leb_ℤ}
use randserver.Base.Bytes.{le_bytes}
use randserver.Serialize.{
  Value, nil, boolean, integer, number, string, table, userdata, light, other, Heap, Refs, low_bits,
  abs_value, Memory, SerializeData, ser_nil, ser_int8, ser_int16, ser_int32, ser_int64, ser_double,
  ser_string8, ser_string16, ser_bool_false, ser_bool_true, ser_lightuser_data,
  serialize_pack_bytes, serialize_pack_op, pack_op_bytes, pack_integer, pack_string, pack_value,
}
use randserver.Serialize.Buffer.{HasMemory, Holds, pack_bytes_lem, pack_op_lem}
use randserver.Serialize.Graph.{leaf_bytes, IsLeaf}

module _ (memory : Memory) (m : HasMemory memory) (support : Bool) (heap : Heap) where
  abbrev pub Packer : Type 0
  Packer = SerializeData → Refs → Value → Option (SerializeData × Refs)

  -- The outcome of a call that leaves `bytes` behind `xs`.
  abbrev Left : Option SerializeData → List ℕ → ℕ → Type 0
  Left result xs t = (ser : SerializeData) × (result ≡ some ser) × Holds support ser xs t

  pub op-Left :
      (ser : SerializeData) (xs : List ℕ) (t op : ℕ)
      → Holds support ser xs t
      → Left (serialize_pack_op memory ser op) (xs ++ op ∷ []) t
  unfolding serialize_pack_op
  op-Left ser xs t op h = pack_bytes_lem memory m support ser xs (op ∷ []) t h

  integer-Left :
      (ser : SerializeData) (xs : List ℕ) (t : ℕ) (i : ℤ)
      → Holds support ser xs t
      → Left (pack_integer memory ser i) (xs ++ leaf_bytes (integer i)) t
  unfolding pack_integer
  integer-Left ser xs t i h = elim (Bool-cases (ltb_ℤ (abs_value i) (pos 128))) [
    | inl e ↦ rw e (pack_op_lem memory m support ser xs (le_bytes 1 (low_bits 8 i)) ser_int8 t h)
    | inr e ↦ elim (Bool-cases (ltb_ℤ (abs_value i) (pos 32768))) [
      | inl e' ↦
          rw (e, e')
            (pack_op_lem memory m support ser xs (le_bytes 2 (low_bits 16 i)) ser_int16 t h)
      | inr e' ↦ elim (Bool-cases (leb_ℤ (abs_value i) (pos 2147483647))) [
        | inl e'' ↦
            rw (e, e', e'')
              (pack_op_lem memory m support ser xs (le_bytes 4 (low_bits 32 i)) ser_int32 t h)
        | inr e'' ↦
            rw (e, e', e'')
              (pack_op_lem memory m support ser xs (le_bytes 8 (low_bits 64 i)) ser_int64 t h)
      ]
    ]
  ]

  text-Left :
      (ser : SerializeData) (xs s : List ℕ) (t op n : ℕ)
      → Holds support ser xs t
      → Left
          (pack_op_bytes memory ser op (le_bytes n (length s)) >>= λ ser'.
            serialize_pack_bytes memory ser' s)
          (xs ++ op ∷ (le_bytes n (length s) ++ s))
          t
  text-Left ser xs s t op n h =
      let (ser1, e1, h1) = pack_op_lem memory m support ser xs (le_bytes n (length s)) op t h in
      let (ser2, e2, h2) =
        pack_bytes_lem memory m support ser1 (xs ++ op ∷ le_bytes n (length s)) s t h1 in
      (
        ser2,
        rw e1 e2,
        subst (λ l. Holds support ser2 l t) (append_assoc xs (op ∷ le_bytes n (length s)) s) h2,
      )

  string-Left :
      (ser : SerializeData) (xs s : List ℕ) (t : ℕ)
      → length s < 2 ^ 15
      → Holds support ser xs t
      → Left (pack_string memory ser s) (xs ++ leaf_bytes (string s)) t
  unfolding pack_string
  string-Left ser xs s t short h = elim (Bool-cases (ltb (length s) (2 ^ 7))) [
    | inl e ↦ rw e (text-Left ser xs s t ser_string8 1 h)
    | inr e ↦
        let middle : ltb (length s) (2 ^ 15) ≡ true = ground arith in
        rw (e, middle) (text-Left ser xs s t ser_string16 2 h)
  ]

  pub leaf_lem :
      (pack : Packer) (ser : SerializeData) (refs : Refs) (xs : List ℕ) (t : ℕ) (v : Value)
      → IsLeaf support v
      → Holds support ser xs t
      → (ser' : SerializeData) × (pack_value memory pack heap ser refs v ≡ some (ser', refs))
        × Holds support ser' (xs ++ leaf_bytes v) t
  unfolding pack_value
  leaf_lem pack ser refs xs t nil h hold =
      let (ser', e, hold') = op-Left ser xs t ser_nil hold in (ser', rw e refl, hold')
  leaf_lem pack ser refs xs t (boolean b) h hold =
      let (ser', e, hold') = op-Left ser xs t (if b then ser_bool_true else ser_bool_false) hold in
      (ser', rw e refl, hold')
  leaf_lem pack ser refs xs t (integer i) h hold =
      let (ser', e, hold') = integer-Left ser xs t i hold in (ser', rw e refl, hold')
  leaf_lem pack ser refs xs t (number b) h hold =
      let (ser', e, hold') = pack_op_lem memory m support ser xs (le_bytes 8 b) ser_double t hold in
      (ser', rw e refl, hold')
  leaf_lem pack ser refs xs t (string s) h hold =
      let (ser', e, hold') = string-Left ser xs s t h hold in (ser', rw e refl, hold')
  leaf_lem pack ser refs xs t (light p) (on, small) hold =
      let (ser', e, hold') =
        pack_op_lem memory m support ser xs (le_bytes 8 p) ser_lightuser_data t hold in
      (
        ser',
        ap (λ r. r >>= λ ser'. some (ser', refs))
            (if-true ser.support _ _ (hold.supports ∙ on) ∙ e),
        hold',
      )
  leaf_lem pack ser refs xs t (table a) h hold = absurd h
  leaf_lem pack ser refs xs t (userdata u) h hold = absurd h
  leaf_lem pack ser refs xs t other h hold = absurd h
