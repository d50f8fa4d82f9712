-- ===== src/Deserialize/Whole.antt =====
-- engine/lualib/serialize.c: `deserialize_unpack` on what `serialize_pack` leaves.
use randserver.Base.{
  ℕ, suc, ◌+◌, ◌^◌, ◌≤◌, ◌<◌, ◌≡◌, refl, sym, ap, ap₂, ◌∙◌, Bool, true, false, some, List, [], ◌∷◌,
  ◌++◌, length, length-append, append_assoc, append-nil, ltb, lt→ltb, ◌==◌, ◌||◌, arith,
}
use mathlib.Core.Path.{fun_ext}
use randserver.Base.Bytes.{read_at}
use randserver.Base.Parts.{read_at-inside, IsAt, IsAt-front, IsAt-back, IsAt-self}
use randserver.Serialize.{
  Value, Heap, err_unpack_error, ser_none, ser_table_end, Memory, SerializeData, serialize_pack,
}
use randserver.Serialize.Buffer.{HasMemory, Holds}
use randserver.Serialize.Graph.{named, IsPlainHeap, Sets}
use randserver.Serialize.All.{PacksAll, end, next, AllPlain, serialize_pack_lem}
use randserver.Serialize.Sets.{built}
use randserver.Serialize.Rebuilt.{
  all_named, tables_at, All-more, All-bound, All-named, All-original, All-built, original_values,
  all_originals, heap_at,
}
use randserver.Deserialize.{
  Outcome, done, always, Unpacked, unpack_obj, unpack_loop, deserialize_unpack,
}
use randserver.Deserialize.Leaves.{good}
use randserver.Deserialize.Steps.{positive}
use randserver.Deserialize.Objects.{obj_back}

module _ (registered : List ℕ → Bool) (bytes : List ℕ) where
  loop_end :
      (r t : ℕ) (sets : Sets) (values : List Value)
      → unpack_loop registered always bytes (suc r) 0 (good (length bytes) t sets) values
        ≡ done (good (length bytes) t sets, values)
  unfolding unpack_loop
  loop_end r t sets values =
      let finished : ltb (length bytes) (length bytes) ≡ false = ground arith in
      rw (unpack_loop, finished) refl

  loop_step :
      (r p t op p' t' : ℕ) (sets sets' : Sets) (v : Value) (values : List Value)
      → p < length bytes
      → (op == ser_none) ≡ false
      → (op == ser_table_end) ≡ false
      → unpack_obj registered always bytes (suc (length bytes)) (good p t sets)
        ≡ done (good p' t' sets', op, v)
      → unpack_loop registered always bytes (suc r) 0 (good p t sets) values
        ≡ unpack_loop registered always bytes r 0 (good p' t' sets') (values ++ v ∷ [])
  unfolding unpack_loop
  loop_step r p t op p' t' sets sets' v values lt n0 n1 e =
      let inside : ltb p (length bytes) ≡ true = lt→ltb _ _ lt in
      let fuel : length bytes + 1 ≡ suc (length bytes) = omega arith in
      let neither : ((op == ser_none) || (op == ser_table_end)) ≡ false = ground arith in
      let wrong : Outcome (Unpacked × List Value) =
        done (record (good p' t' sets') { error = err_unpack_error }, values) in
      let next_round =
        unpack_loop registered always bytes r 0 (good p' t' sets') (values ++ v ∷ []) in
      rw (unpack_loop, inside, fuel, e)
        (ap
          (λ c. elim c as (λ x. Outcome (Unpacked × List Value)) [
            | true ↦ wrong
            | false ↦ next_round
          ])
          neither)

  loop_back :
      {support : Bool} {heap : Heap} {met met' : List ℕ} {vs : List Value} {b : List ℕ} {s : Sets}
      {values : List Value}
      → PacksAll support heap met vs met' b s values
      → (rounds p : ℕ) (sets : Sets) (before : List Value) → IsAt bytes p b
      → p + length b ≡ length bytes
      → length bytes ≤ rounds + p
      → length met' < 2 ^ 31
      → unpack_loop registered always bytes (suc rounds) 0 (good p (length met) sets) before
        ≡ done (good (length bytes) (length met') (sets ++ s), before ++ values)
  loop_back {met = met} end rounds p sets before at all enough small =
      let here : p ≡ length bytes = omega arith in
      ap (λ n. unpack_loop registered always bytes (suc rounds) 0 (good n (length met) sets) before)
        here
      ∙ loop_end rounds (length met) sets before
      ∙ ap₂ (λ l vs. done (good (length bytes) (length met) l, vs)) (sym (append-nil sets))
          (sym (append-nil before))
  loop_back
        (next {met = met} {met1 = met1} {met2 = met2} v {b1 = b1} {b2 = b2} {s1 = s1} {s2 = s2}
          {values = values} pv ps)
        rounds p sets before at all enough small =
      let (more, grown) = All-more ps in
      let fewer : length met1 < 2 ^ 31 = omega (arith, ap length grown, length-append met1 more) in
      let sum : p + length b1 + length b2 ≡ length bytes = omega (arith, length-append b1 b2) in
      let (op, n0, n1, some_byte, e) =
        obj_back registered bytes pv (length bytes) p sets (IsAt-front bytes p b1 b2 at)
          (omega arith) fewer in
      let (r, same) = positive rounds p (length bytes) enough (omega arith) in
      let rest =
        loop_back ps r (p + length b1) (sets ++ s1) (before ++ named met1 v ∷ [])
          (IsAt-back bytes p b1 b2 at) sum (omega arith) small in
      loop_step rounds p (length met) op _ _ sets _ _ before (omega arith) n0 n1 e
      ∙ ap
          (λ n.
            unpack_loop registered always bytes n 0
              (good (p + length b1) (length met1) (sets ++ s1)) (before ++ named met1 v ∷ []))
          same
      ∙ rest
      ∙ ap₂ (λ l vs. done (good (length bytes) (length met2) l, vs)) (append_assoc sets s1 s2)
          (append_assoc before (named met1 v ∷ []) values)

  pub whole_back :
      {support : Bool} {heap : Heap} {met : List ℕ} {vs : List Value} {s : Sets}
      {values : List Value}
      → PacksAll support heap [] vs met bytes s values
      → length met < 2 ^ 31
      → deserialize_unpack registered always bytes 0
        ≡ done (good (length bytes) (length met) s, values)
  unfolding deserialize_unpack
  whole_back {met = met} {s = s} {values = values} p small =
      let rounds : length bytes + 1 ≡ suc (length bytes) = omega arith in
      let back =
        loop_back p (length bytes) 0 [] [] (IsAt-self bytes) (omega arith) (omega arith) small in
      rw (rounds, back) refl

Holds-bytes :
    (support : Bool) (ser : SerializeData) (xs : List ℕ) (t : ℕ)
    → Holds support ser xs t
    → read_at 0 ser.size ser.data_cells ≡ some xs
Holds-bytes support ser xs t h =
    ap₂ (λ n l. read_at 0 n l) h.size_now h.cells ∙ read_at-inside [] xs h.rest

-- With memory and room on Lua's stack, and fewer than 2 ^ 31 tables: let the arguments and the keys
-- and values in the tables be nil, Booleans, integers but the least, numbers, strings shorter than
-- 2 ^ 15, tables of the heap, or light userdata where it is supported, and no key be nil or a NaN.
-- Let `init_buff` have `init_size` bytes, and be the block where no other one is. Then
-- `serialize_pack` returns, and `deserialize_unpack` without a limit takes all its bytes, without
-- an error, and gives the arguments, with the number in which a table was met for its address. The
-- calls of `lua_rawset` make of each new table, in their order, the entries of the table that was
-- met under its number, and the addresses for the numbers give the arguments and these tables back.
pub deserialize_unpack-serialize_pack :
    (registered : List ℕ → Bool) (room : ℕ → Bool) (memory : Memory) (heap : Heap)
    (ser : SerializeData) (args : List Value)
    → ((p : ℕ) → room p ≡ true)
    → HasMemory memory
    → IsPlainHeap ser.support heap
    → AllPlain ser.support heap args
    → length heap < 2 ^ 31
    → length ser.init_buff ≡ ser.init_size
    → (ser.own ≡ false → ser.data_cells ≡ ser.init_buff)
    → (met : List ℕ) × (bytes : List ℕ) × (sets : Sets) × (ser' : SerializeData) × (serialize_pack
          memory heap ser args
        ≡ some ser')
      × (read_at 0 ser'.size ser'.data_cells ≡ some bytes)
      × (deserialize_unpack registered room bytes 0
          ≡ done (good (length bytes) (length met) sets, all_named met args))
      × (original_values met (all_named met args) ≡ args)
      × (built 1 (length met) sets ≡ tables_at heap met met)
      × (all_originals met (built 1 (length met) sets) ≡ heap_at heap met)
deserialize_unpack-serialize_pack registered room memory heap ser args enough m plain all small len
      same =
    let (met, bytes, sets, values, ser', e, packs, hold) =
      serialize_pack_lem memory m ser.support heap plain ser args small refl len same all in
    let back = whole_back registered bytes packs (omega (arith, All-bound packs)) in
    let there = All-named packs met ([], sym (append-nil met)) in
    let (tables, addresses) = All-built packs in
    (
      met,
      bytes,
      sets,
      ser',
      e,
      Holds-bytes ser.support ser' bytes (length met) hold,
      ap (λ r. deserialize_unpack registered r bytes 0) (fun_ext {g = always} enough)
          ∙ back
          ∙ ap (λ vs. done (good (length bytes) (length met) sets, vs)) there,
      ap (original_values met) (sym there) ∙ All-original packs met ([], sym (append-nil met)),
      tables,
      addresses,
    )
