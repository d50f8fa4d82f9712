-- ===== src/Serialize/Buffer.antt =====
-- engine/lualib/serialize.c: the buffer of packed bytes, through `check_serialize_pack`.
use randserver.Base.{
  ℕ, ◌+◌, ◌≤◌, ◌≡◌, refl, sym, ap, ap₂, ◌∙◌, subst, Bool, true, false, some, List, [], ◌∷◌, ◌++◌,
  length, length-append, append_assoc, split_at, ltb, leb, ltb→lt, ltb→le, leb→le, Bool-cases, inl,
  inr, ◌⊎◌, if◌then◌else◌, arith,
}
use randserver.Base.Bytes.{read_at, write_at}
use randserver.Base.Parts.{read_at-inside, write_at-inside}
use randserver.Serialize.{
  Memory, SerializeData, is_error, serialize_clean, grown, check_serialize_pack,
  serialize_pack_bytes, serialize_pack_op, pack_op_bytes,
}

-- There is memory: `malloc` gives a block, and `realloc` one with the old front.
pub record HasMemory (memory : Memory) : Type 0 where
  pub mallocs : (n : ℕ) → (block : List ℕ) × (memory.malloc n ≡ some block) × (length block ≡ n)
  pub reallocs :
      (xs rest : List ℕ) (n : ℕ)
      → length xs ≤ n
      → (more : List ℕ) × (memory.realloc (xs ++ rest) n ≡ some (xs ++ more))
        × (length xs + length more ≡ n)

-- `xs` is packed so far, without an error, and `t` tables are recorded.
pub record Holds (support : Bool) (ser : SerializeData) (xs : List ℕ) (t : ℕ) : Type 0 where
  pub rest : List ℕ
  pub cells : ser.data_cells ≡ xs ++ rest
  pub size_now : ser.size ≡ length xs
  pub max_now : length xs + length rest ≡ ser.max_size
  pub init_length : length ser.init_buff ≡ ser.init_size
  pub init_max : ser.own ≡ false → ser.max_size ≡ ser.init_size
  pub no_error : is_error ser.error ≡ false
  pub supports : ser.support ≡ support
  pub refs_now : ser.table_ref ≡ t

module _ (memory : Memory) (m : HasMemory memory) (support : Bool) where
  -- There is room for `n` more bytes.
  abbrev Checked : SerializeData → List ℕ → ℕ → ℕ → Type 0
  Checked ser xs t n =
      (ser' : SerializeData) × (check_serialize_pack memory ser n ≡ some (true, ser'))
      × Holds support ser' xs t
      × (length xs + n ≤ ser'.max_size)

  check_grown :
      (ser : SerializeData) (xs : List ℕ) (t n : ℕ)
      → Holds support ser xs t
      → (ser.own ≡ true) ⊎ (ser.own ≡ false)
      → (ser' : SerializeData) × (grown memory ser (ser.size + n + 1024) ≡ some (true, ser'))
        × Holds support ser' xs t
        × (length xs + n ≤ ser'.max_size)
  unfolding grown
  check_grown ser xs t n h (inl owned) =
      let (more, e, len) = m.reallocs xs h.rest (ser.size + n + 1024) (omega (arith, h.size_now)) in
      (
        record ser { data_cells = xs ++ more; own = true; max_size = ser.size + n + 1024 },
        rw (owned, h.cells, e) refl,
        record {
          rest = more;
          cells = refl;
          size_now = h.size_now;
          max_now = len;
          init_length = h.init_length;
          init_max = λ fresh. absurd (ground arith);
          no_error = h.no_error;
          supports = h.supports;
          refs_now = h.refs_now;
        },
        omega (arith, h.size_now),
      )
  check_grown ser xs t n h (inr fresh) =
      let (block, e, len) = m.mallocs (ser.size + n + 1024) in
      let (front, back, cut, short) = split_at block (length xs) (omega (arith, h.size_now)) in
      let copied : read_at 0 ser.size ser.data_cells ≡ some xs =
        ap₂ (read_at 0) h.size_now h.cells ∙ read_at-inside [] xs h.rest in
      let written : write_at 0 xs block ≡ some (xs ++ back) =
        ap (write_at 0 xs) cut ∙ write_at-inside [] xs front back short in
      (
        record ser {
          data_cells = xs ++ back;
          own = true;
          max_size = ser.size + n + 1024;
          init_buff = ser.data_cells;
        },
        rw (fresh, e, copied, written) refl,
        record {
          rest = back;
          cells = refl;
          size_now = h.size_now;
          max_now = omega (arith, ap length cut, length-append front back);
          init_length = ap length h.cells ∙ length-append xs h.rest ∙ h.max_now ∙ h.init_max fresh;
          init_max = λ owned. absurd (ground arith);
          no_error = h.no_error;
          supports = h.supports;
          refs_now = h.refs_now;
        },
        omega (arith, h.size_now),
      )

  check_lem :
      (ser : SerializeData) (xs : List ℕ) (t n : ℕ) → Holds support ser xs t → Checked ser xs t n
  unfolding check_serialize_pack
  check_lem ser xs t n h = elim (Bool-cases (ltb (ser.size + n) ser.max_size)) [
    | inl room ↦ (ser, rw room refl, h, omega (arith, h.size_now, ltb→lt _ _ room))
    | inr full ↦ elim (Bool-cases (leb (ser.size + n) ser.init_size)) [
      | inr large ↦
          let (ser', e, h', room) = check_grown ser xs t n h (Bool-cases ser.own) in
          (ser', rw (full, large) e, h', room)
      | inl small ↦ elim (Bool-cases ser.own) [
        | inr fresh ↦
            let same = h.init_max fresh in
            (
              record ser { max_size = ser.init_size },
              rw (full, small, fresh) refl,
              record {
                rest = h.rest;
                cells = h.cells;
                size_now = h.size_now;
                max_now = h.max_now ∙ same;
                init_length = h.init_length;
                init_max = λ e. refl;
                no_error = h.no_error;
                supports = h.supports;
                refs_now = h.refs_now;
              },
              omega (arith, h.size_now, ltb→le _ _ full, leb→le _ _ small),
            )
        | inl owned ↦
            let fits = leb→le _ _ small in
            let (front, back, cut, short) =
              split_at ser.init_buff (length xs) (omega (arith, h.size_now, h.init_length)) in
            let copied : read_at 0 ser.size ser.data_cells ≡ some xs =
              ap₂ (read_at 0) h.size_now h.cells ∙ read_at-inside [] xs h.rest in
            let written : write_at 0 xs ser.init_buff ≡ some (xs ++ back) =
              ap (write_at 0 xs) cut ∙ write_at-inside [] xs front back short in
            (
              record ser { data_cells = xs ++ back; own = false; max_size = ser.init_size },
              rw (full, small, owned, copied, written) refl,
              record {
                rest = back;
                cells = refl;
                size_now = h.size_now;
                max_now = omega (arith, ap length cut, length-append front back, h.init_length);
                init_length = h.init_length;
                init_max = λ e. refl;
                no_error = h.no_error;
                supports = h.supports;
                refs_now = h.refs_now;
              },
              omega (arith, h.size_now),
            )
      ]
    ]
  ]

  bytes_step :
      (ser ser' : SerializeData) (bytes cells : List ℕ)
      → is_error ser.error ≡ false
      → check_serialize_pack memory ser (length bytes) ≡ some (true, ser')
      → write_at ser'.size bytes ser'.data_cells ≡ some cells
      → serialize_pack_bytes memory ser bytes
        ≡ some (record ser' { data_cells = cells; size = ser'.size + length bytes })
  unfolding serialize_pack_bytes
  bytes_step ser ser' bytes cells good e e' = rw (good, e, e') refl

  -- `serialize_pack_bytes` puts the bytes behind what is packed so far.
  pub pack_bytes_lem :
      (ser : SerializeData) (xs ys : List ℕ) (t : ℕ)
      → Holds support ser xs t
      → (ser' : SerializeData) × (serialize_pack_bytes memory ser ys ≡ some ser')
        × Holds support ser' (xs ++ ys) t
  pack_bytes_lem ser xs ys t h =
      let (ser', e, h', room) = check_lem ser xs t (length ys) h in
      let (front, back, cut, short) = split_at h'.rest (length ys) (omega (arith, h'.max_now)) in
      let written : write_at ser'.size ys ser'.data_cells ≡ some (xs ++ (ys ++ back)) =
        ap₂ (λ k l. write_at k ys l) h'.size_now (h'.cells ∙ ap (λ l. xs ++ l) cut)
        ∙ write_at-inside xs ys front back short in
      (
        record ser' { data_cells = xs ++ (ys ++ back); size = ser'.size + length ys },
        bytes_step ser ser' ys (xs ++ (ys ++ back)) h.no_error e written,
        record {
          rest = back;
          cells = sym (append_assoc xs ys back);
          size_now = omega (arith, h'.size_now, length-append xs ys);
          max_now =
              omega
                (arith, length-append xs ys, ap length cut, length-append front back, h'.max_now);
          init_length = h'.init_length;
          init_max = h'.init_max;
          no_error = h'.no_error;
          supports = h'.supports;
          refs_now = h'.refs_now;
        },
      )

  pub pack_op_lem :
      (ser : SerializeData) (xs ys : List ℕ) (op t : ℕ)
      → Holds support ser xs t
      → (ser' : SerializeData) × (pack_op_bytes memory ser op ys ≡ some ser')
        × Holds support ser' (xs ++ op ∷ ys) t
  unfolding serialize_pack_op
  pack_op_lem ser xs ys op t h =
      let (ser1, e1, h1) = pack_bytes_lem ser xs (op ∷ []) t h in
      let (ser2, e2, h2) = pack_bytes_lem ser1 (xs ++ op ∷ []) ys t h1 in
      (
        ser2,
        rw (e1, e2) refl,
        subst (λ l. Holds support ser2 l t) (append_assoc xs (op ∷ []) ys) h2,
      )

clean_cells :
    (ser : SerializeData)
    → (ser.own ≡ true) ⊎ (ser.own ≡ false)
    → (ser.own ≡ false → ser.data_cells ≡ ser.init_buff)
    → (if ser.own then ser.init_buff else ser.data_cells) ≡ ser.init_buff
clean_cells ser (inl owned) same = rw owned refl
clean_cells ser (inr fresh) same = rw fresh (same fresh)

-- A cleaned state holds nothing.
pub serialize_clean-Holds :
    (ser : SerializeData)
    → length ser.init_buff ≡ ser.init_size
    → (ser.own ≡ false → ser.data_cells ≡ ser.init_buff)
    → Holds ser.support (serialize_clean ser) [] 0
unfolding serialize_clean
serialize_clean-Holds ser len same = record {
  rest = ser.init_buff;
  cells = clean_cells ser (Bool-cases ser.own) same;
  size_now = refl;
  max_now = omega (arith, len);
  init_length = len;
  init_max = λ e. refl;
  no_error = refl;
  supports = refl;
  refs_now = refl;
}
