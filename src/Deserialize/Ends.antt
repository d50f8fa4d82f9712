-- ===== src/Deserialize/Ends.antt =====
-- engine/lualib/serialize.c: `deserialize_unpack` on any bytes.
use randserver.Base.{
  ℕ, zero, suc, ◌+◌, ◌^◌, ◌≤◌, ◌<◌, ◌≡◌, refl, sym, ap, ◌∙◌, Bool, true, false, Option, none, some,
  List, [], ◌∷◌, ◌++◌, length, get_elem?, get_elem?-some, ltb, leb, ◌==◌, ==→eq, ◌||◌, ◌&&◌,
  Bool-cases, inl, inr, ◌⊎◌, if◌then◌else◌, arith,
}
use mathlib.Core.Option.{none-ne-some}
use randserver.Base.Bytes.{read_at, from_le}
use randserver.Serialize.Values.{
  Value, ser_none, ser_nil, ser_int8, ser_int16, ser_int32, ser_int64, ser_double, ser_string8,
  ser_string16, ser_string32, ser_bool_false, ser_bool_true, ser_table_ref, ser_table_end,
  ser_table_begin, ser_user_data, ser_lightuser_data, Error, is_error, is_key,
}
use randserver.Deserialize.{
  Outcome, done, fault, raised, full, spent, read, Unpacked, Pushed, unpack_fixed, unpack_string,
  unpack_table_ref, text_at, unpack_userdata, unpack_leaf, unpack_entries, unpack_table, unpack_obj,
  unpack_loop, deserialize_unpack, ◌>>=◌,
}

-- The ways to end badly.
data Bad : Type 0 where
  bad_read bad_key no_room : Bad

-- The call does not run out of fuel, a bad end is excused, and a result has the property.
abbrev Ends : {A : Type 0} → (Bad → Type 0) → (A → Type 0) → Outcome A → Type 0
Ends F P (done a) = P a
Ends F P fault = F bad_read
Ends F P raised = F bad_key
Ends F P full = F no_room
Ends F P spent = ⊥

module _ (F : Bad → Type 0) where
  Ends-bind :
      {A B : Type 0} (P : A → Type 0) (Q : B → Type 0) (k : A → Outcome B) (r : Outcome A)
      → Ends F P r
      → ((a : A) → P a → Ends F Q (k a))
      → Ends F Q (r >>= k)
  Ends-bind P Q k (done a) h step = step a h
  Ends-bind P Q k fault h step = h
  Ends-bind P Q k raised h step = h
  Ends-bind P Q k full h step = h
  Ends-bind P Q k spent h step = absurd h

  Ends-read :
      {A B : Type 0} (Q : B → Type 0) (k : A → Outcome B) (o : Option A)
      → (o ≡ none → F bad_read)
      → ((a : A) → o ≡ some a → Ends F Q (k a))
      → Ends F Q (read o >>= k)
  Ends-read Q k none excuse step = excuse refl
  Ends-read Q k (some a) excuse step = step a refl

  Ends-if :
      {B : Type 0} (Q : B → Type 0) (c : Bool) (x y : Outcome B)
      → (c ≡ true → Ends F Q x)
      → (c ≡ false → Ends F Q y)
      → Ends F Q (if c then x else y)
  Ends-if Q true x y hx hy = hx refl
  Ends-if Q false x y hx hy = hy refl

  Ends-elim :
      {B : Type 0} (Q : B → Type 0) (c : Bool) (x y : Outcome B)
      → (c ≡ true → Ends F Q x)
      → (c ≡ false → Ends F Q y)
      → Ends F Q (elim c as (λ b. Outcome B) [ true ↦ x | false ↦ y ])
  Ends-elim Q true x y hx hy = hx refl
  Ends-elim Q false x y hx hy = hy refl

  Ends-more :
      {A : Type 0} (P Q : A → Type 0) (r : Outcome A)
      → ((a : A) → P a → Q a)
      → Ends F P r
      → Ends F Q r
  Ends-more P Q (done a) more h = more a h
  Ends-more P Q fault more h = h
  Ends-more P Q raised more h = h
  Ends-more P Q full more h = h
  Ends-more P Q spent more h = absurd h

-- A checked read is inside.
read_at-some :
    (p n : ℕ) (bytes : List ℕ)
    → p + n ≤ length bytes
    → (xs : List ℕ) × (read_at p n bytes ≡ some xs)
unfolding read_at
read_at-some zero zero bytes h = ([], refl)
read_at-some zero (suc n) [] h = absurd (omega arith)
read_at-some zero (suc n) (b ∷ bytes) h =
    let (rest, e) = read_at-some zero n bytes (omega arith) in (b ∷ rest, rw e refl)
read_at-some (suc p) n [] h = absurd (omega arith)
read_at-some (suc p) n (b ∷ bytes) h = read_at-some p n bytes (omega arith)

read_at-inside_bytes :
    {F : Type 0} (p n : ℕ) (bytes : List ℕ) → p + n ≤ length bytes → read_at p n bytes ≡ none → F
read_at-inside_bytes p n bytes h e =
    let (xs, e') = read_at-some p n bytes h in absurd (none-ne-some xs (sym e ∙ e'))

-- The position has not gone back.
abbrev Past : ℕ → Unpacked × Value → Type 0
Past p (u, v) = p ≤ u.at

-- It has gone on where a kind was read.
abbrev Went : ℕ → ℕ → Unpacked × ℕ × Value → Type 0
Went l p (u, op, v) =
    (p ≤ u.at) × (is_error u.error ≡ false → (op == ser_none) ≡ false → (p < u.at) × (p < l))

-- There is a byte that says that a userdata follows.
abbrev pub HasUserData : List ℕ → Type 0
HasUserData bytes = (p : ℕ) × (get_elem? bytes p ≡ some ser_user_data)

-- There is a byte that says that a table begins.
abbrev pub HasTable : List ℕ → Type 0
HasTable bytes = (p : ℕ) × (get_elem? bytes p ≡ some ser_table_begin)

-- For the value at some byte there is no room.
abbrev pub LacksRoom : (ℕ → Bool) → List ℕ → Type 0
LacksRoom room bytes = (p : ℕ) × (p < length bytes) × (room p ≡ false)

module _ (registered : List ℕ → Bool) (room : ℕ → Bool) (bytes : List ℕ) where
  abbrev Excuse : Bad → Type 0
  Excuse bad_read = HasUserData bytes
  Excuse bad_key = HasTable bytes
  Excuse no_room = LacksRoom room bytes

  fixed-Ends :
      (n : ℕ) (err : Error) (value : ℕ → Value) (u : Unpacked)
      → Ends Excuse (Past u.at) (unpack_fixed registered room bytes n err value u)
  unfolding unpack_fixed
  fixed-Ends n err value u =
      Ends-if Excuse (Past u.at) (ltb (length bytes) (u.at + n)) _ _ (λ t. omega arith)
        (λ f.
          Ends-read Excuse (Past u.at) _ (read_at u.at n bytes)
            (read_at-inside_bytes u.at n bytes (ground arith)) (λ b e. omega arith))

  string-Ends :
      (n : ℕ) (e1 e2 : Error) (u : Unpacked)
      → Ends Excuse (Past u.at) (unpack_string registered room bytes n e1 e2 u)
  unfolding unpack_string
  string-Ends n e1 e2 u =
      Ends-if Excuse (Past u.at) (ltb (length bytes) (u.at + n)) _ _ (λ t. omega arith)
        (λ f.
          Ends-read Excuse (Past u.at) _ (read_at u.at n bytes)
            (read_at-inside_bytes u.at n bytes (ground arith))
            (λ b e.
              Ends-if Excuse (Past u.at) (ltb (length bytes) (u.at + n + from_le b)) _ _
                (λ t. omega arith)
                (λ f'.
                  Ends-read Excuse (Past u.at) _ (read_at (u.at + n) (from_le b) bytes)
                    (read_at-inside_bytes (u.at + n) (from_le b) bytes (ground arith))
                    (λ t e'. omega arith))))

  ref-Ends : (u : Unpacked) → Ends Excuse (Past u.at) (unpack_table_ref registered room bytes u)
  unfolding unpack_table_ref
  ref-Ends u =
      Ends-if Excuse (Past u.at) (ltb (length bytes) (u.at + 4)) _ _ (λ t. omega arith)
        (λ f.
          Ends-read Excuse (Past u.at) _ (read_at u.at 4 bytes)
            (read_at-inside_bytes u.at 4 bytes (ground arith))
            (λ b e.
              Ends-if Excuse (Past u.at)
                (ltb (from_le b) 2147483648 && (ltb 0 (from_le b) && leb (from_le b) u.tables)) _ _
                (λ t. omega arith) (λ t. omega arith)))

  userdata-Ends :
      (HasUserData bytes)
      → (u : Unpacked) → Ends Excuse (Past u.at) (unpack_userdata registered room bytes u)
  unfolding unpack_userdata
  userdata-Ends has u =
      Ends-if Excuse (Past u.at) (ltb (length bytes) (u.at + 8)) _ _ (λ t. omega arith)
        (λ f.
          Ends-read Excuse (Past u.at) _ (get_elem? bytes u.at) (λ e. has)
            (λ name_size e.
              Ends-read Excuse (Past u.at) _ (text_at registered room bytes (u.at + 1) bytes)
                (λ e'. has)
                (λ name e'.
                  Ends-read Excuse (Past u.at) _ (get_elem? bytes (u.at + 1 + name_size))
                    (λ e''. has)
                    (λ size e''.
                      Ends-if Excuse (Past u.at) (registered name) _ _
                        (λ t.
                          Ends-read Excuse (Past u.at) _
                            (read_at (u.at + 1 + name_size + 1) size bytes) (λ g. has)
                            (λ cells g. omega arith))
                        (λ t. omega arith)))))

  leaf-Ends :
      (op : ℕ) (u : Unpacked)
      → (op ≡ ser_user_data → (HasUserData bytes))
      → Ends Excuse (Past u.at) (unpack_leaf registered room bytes op u)
  unfolding unpack_leaf
  leaf-Ends op u has =
      let P = Past u.at in
      let here : u.at ≤ u.at = omega arith in
      Ends-if Excuse P (op == ser_nil) _ _ (λ t. here)
        (λ f.
          Ends-if Excuse P (op == ser_int8) _ _ (λ t. fixed-Ends 1 _ _ u)
            (λ f.
              Ends-if Excuse P (op == ser_int16) _ _ (λ t. fixed-Ends 2 _ _ u)
                (λ f.
                  Ends-if Excuse P (op == ser_int32) _ _ (λ t. fixed-Ends 4 _ _ u)
                    (λ f.
                      Ends-if Excuse P (op == ser_int64) _ _ (λ t. fixed-Ends 8 _ _ u)
                        (λ f.
                          Ends-if Excuse P (op == ser_double) _ _ (λ t. fixed-Ends 8 _ _ u)
                            (λ f.
                              Ends-if Excuse P (op == ser_string8) _ _ (λ t. string-Ends 1 _ _ u)
                                (λ f.
                                  Ends-if Excuse P (op == ser_string16) _ _
                                    (λ t. string-Ends 2 _ _ u)
                                    (λ f.
                                      Ends-if Excuse P (op == ser_string32) _ _
                                        (λ t. string-Ends 4 _ _ u)
                                        (λ f.
                                          Ends-if Excuse P (op == ser_bool_false) _ _ (λ t. here)
                                            (λ f.
                                              Ends-if Excuse P (op == ser_bool_true) _ _ (λ t. here)
                                                (λ f.
                                                  Ends-if Excuse P (op == ser_table_ref) _ _
                                                    (λ t. ref-Ends u)
                                                    (λ f.
                                                      Ends-if Excuse P (op == ser_table_end) _ _
                                                        (λ t. here)
                                                        (λ f.
                                                          Ends-if Excuse P (op == ser_user_data) _ _
                                                            (λ t.
                                                            userdata-Ends
                                                            (has (==→eq op ser_user_data t)) u)
                                                            (λ f.
                                                            Ends-if Excuse P
                                                            (op == ser_lightuser_data) _ _
                                                            (λ t. fixed-Ends 8 _ _ u)
                                                            (λ f. here)))))))))))))))

  -- A way to unpack a value that ends at the position `n` and behind it.
  abbrev EndsFrom : ℕ → (Unpacked → Pushed) → Type 0
  EndsFrom n obj = (u : Unpacked) → n ≤ u.at → Ends Excuse (Went (length bytes) u.at) (obj u)

  entries-Ends :
      (n : ℕ) (obj : Unpacked → Pushed)
      → HasTable bytes
      → EndsFrom n obj
      → (rounds index : ℕ) (u : Unpacked) (op : ℕ) (key : Value) → n ≤ u.at
      → 0 < rounds
      → length bytes < rounds + u.at
      → Ends Excuse
          (λ u'. u.at ≤ u'.at)
          (unpack_entries registered room bytes rounds obj index u op key)
  unfolding unpack_entries
  entries-Ends n obj begins h zero index u op key from some_rounds enough = absurd (omega arith)
  entries-Ends n obj begins h (suc rounds) index u op key from some_rounds enough =
      let P : Unpacked → Type 0 = λ u'. u.at ≤ u'.at in
      Ends-elim Excuse P (is_error u.error || (op == ser_table_end)) _ _ (λ e. omega arith)
        (λ e.
          Ends-elim Excuse P (op == ser_none) _ _ (λ e'. omega arith)
            (λ e'.
              Ends-bind Excuse (Went (length bytes) u.at) P _ (obj u) (h u from)
                (λ (u1, op1, v1) (low, went).
                  Ends-elim Excuse P (is_error u1.error) _ _ (λ e2. low)
                    (λ fine.
                      Ends-elim Excuse P ((op1 == ser_none) || (op1 == ser_table_end)) _ _
                        (λ e3. low)
                        (λ some_value.
                          let (more, inside) = went fine (neither op1 some_value) in
                          Ends-elim Excuse P (is_key key) _ _
                            (λ good_key.
                              Ends-bind Excuse (Went (length bytes) u1.at) P _ (obj _)
                                (h _ (omega arith))
                                (λ (u2, op2, v2) (low2, went2).
                                  Ends-more Excuse (λ u'. u2.at ≤ u'.at) P _
                                    (λ u' later. omega arith)
                                    (entries-Ends n obj begins h rounds index u2 op2 v2
                                      (omega arith) (omega arith) (omega arith))))
                            (λ bad. begins))))))
    where
      neither :
          (op1 : ℕ)
          → ((op1 == ser_none) || (op1 == ser_table_end)) ≡ false
          → (op1 == ser_none) ≡ false
      neither op1 e = ground arith

  table-Ends :
      (obj : Unpacked → Pushed) (rounds : ℕ) (u : Unpacked)
      → HasTable bytes
      → EndsFrom u.at obj
      → 0 < rounds
      → length bytes < rounds + u.at
      → Ends Excuse (Past u.at) (unpack_table registered room bytes rounds obj u)
  unfolding unpack_table
  table-Ends obj rounds u begins h some_rounds enough =
      Ends-bind Excuse (Went (length bytes) u.at) (Past u.at) _ (obj _) (h _ (omega arith))
        (λ (u1, op, v) (low, went).
          Ends-bind Excuse (λ u'. u1.at ≤ u'.at) (Past u.at) _
            (unpack_entries registered room bytes rounds obj _ u1 op v)
            (entries-Ends u.at obj begins h rounds _ u1 op v low some_rounds (omega arith))
            (λ u2 later. omega arith))

  obj-Ends :
      (f : ℕ) (u : Unpacked)
      → 0 < f
      → length bytes < f + u.at
      → Ends Excuse (Went (length bytes) u.at) (unpack_obj registered room bytes f u)
  unfolding unpack_obj
  obj-Ends zero u some_fuel enough = absurd (omega arith)
  obj-Ends (suc f) u some_fuel enough =
      let P = Went (length bytes) u.at in
      Ends-elim Excuse P (is_error u.error || leb (length bytes) u.at) _ _
        (λ e. (omega arith, λ fine kind. absurd (ground arith)))
        (λ e.
          let inside = open_end (is_error u.error) u.at e in
          Ends-elim Excuse P (room u.at) _ _
            (λ some_room.
              Ends-read Excuse P _ (get_elem? bytes u.at)
                (λ missing.
                  absurd (none-ne-some _ (sym missing ∙ (get_elem?-some bytes u.at inside).1)))
                (λ op there.
                  Ends-bind Excuse (Past (u.at + 1)) P _ _
                    (Ends-elim Excuse (Past (u.at + 1)) (op == ser_table_begin) _ _
                      (λ begin.
                        table-Ends (unpack_obj registered room bytes f) f _
                          (u.at, there ∙ ap some (==→eq op ser_table_begin begin))
                          (λ u' from. obj-Ends f u' (omega arith) (omega arith)) (omega arith)
                          (omega arith))
                      (λ single. leaf-Ends op _ (λ same. (u.at, there ∙ ap some same))))
                    (λ (u', v) past. (omega arith, λ fine kind. (omega arith, inside)))))
            (λ refused. (u.at, inside, refused)))
    where
      open_end : (b : Bool) (p : ℕ) → (b || leb (length bytes) p) ≡ false → p < length bytes
      open_end b p e = ground arith

  loop-Ends :
      (rounds res_count : ℕ) (u : Unpacked) (values : List Value)
      → length bytes < rounds + u.at
      → 0 < rounds
      → Ends Excuse (λ x. Unit {0}) (unpack_loop registered room bytes rounds res_count u values)
  unfolding unpack_loop
  loop-Ends zero res_count u values enough some_rounds = absurd (omega arith)
  loop-Ends (suc rounds) res_count u values enough some_rounds =
      let P : Unpacked × List Value → Type 0 = λ x. Unit {0} in
      Ends-elim Excuse P (ltb u.at (length bytes)) _ _
        (λ e.
          Ends-bind Excuse (Went (length bytes) u.at) P _
            (unpack_obj registered room bytes (length bytes + 1) u)
            (obj-Ends (length bytes + 1) u (omega arith) (omega arith))
            (λ (u1, op, v) (low, went).
              Ends-elim Excuse P (is_error u1.error) _ _ (λ e1. tt)
                (λ fine.
                  Ends-elim Excuse P ((op == ser_none) || (op == ser_table_end)) _ _ (λ e2. tt)
                    (λ some_value.
                      let (more, inside) = went fine (neither op some_value) in
                      Ends-elim Excuse P
                        (ltb 0 res_count && leb res_count (length (values ++ v ∷ []))) _ _
                        (λ e3. tt)
                        (λ e3.
                          loop-Ends rounds res_count u1 (values ++ v ∷ []) (omega arith)
                            (omega arith))))))
        (λ e. tt)
    where
      neither :
          (op1 : ℕ)
          → ((op1 == ser_none) || (op1 == ser_table_end)) ≡ false
          → (op1 == ser_none) ≡ false
      neither op1 e = ground arith

  -- On any bytes, fewer than 2 ^ 31, so that the int that counts the results does not overflow,
  -- `deserialize_unpack` either reads outside the bytes, and then one of them is the kind of a
  -- userdata; or Lua raises the error of a nil or NaN key in `lua_rawset`, and then one of them is
  -- the kind of a table; or `lua_checkstack`, whose answer the source ignores, finds no room for
  -- the value at one of them; or it returns, without an error or with no results. It does not run
  -- forever: the fuel is enough.
  pub deserialize_unpack_lem :
      (res_count : ℕ)
      → length bytes < 2 ^ 31
      → ((deserialize_unpack registered room bytes res_count ≡ fault) × (HasUserData bytes))
        ⊎ ((deserialize_unpack registered room bytes res_count ≡ raised) × (HasTable bytes))
        ⊎ ((deserialize_unpack registered room bytes res_count ≡ full) × (LacksRoom room bytes))
        ⊎ ((u : Unpacked) × (values : List Value) × (deserialize_unpack registered room bytes
                res_count
              ≡ done (u, values))
            × ((is_error u.error ≡ false) ⊎ (values ≡ [])))
  unfolding deserialize_unpack
  deserialize_unpack_lem res_count countable = outcome _ (
      Ends-bind Excuse (λ x. Unit {0}) Right _ _
        (loop-Ends (length bytes + 1) res_count _ [] (omega arith) (omega arith))
        (λ (u, values) h. empty u values))
    where
      Right : Unpacked × List Value → Type 0
      Right (u, values) = (is_error u.error ≡ false) ⊎ (values ≡ [])

      empty :
          (u : Unpacked) (values : List Value)
          → (is_error u.error ≡ false) ⊎ ((if is_error u.error then [] else values) ≡ [])
      empty u values = elim (Bool-cases (is_error u.error)) [
        | inl e ↦ inr (rw e refl)
        | inr e ↦ inl e
      ]

      outcome :
          (r : Outcome (Unpacked × List Value))
          → Ends Excuse Right r
          → ((r ≡ fault) × (HasUserData bytes))
            ⊎ ((r ≡ raised) × (HasTable bytes))
            ⊎ ((r ≡ full) × (LacksRoom room bytes))
            ⊎ ((u : Unpacked) × (values : List Value) × (r ≡ done (u, values))
                × ((is_error u.error ≡ false) ⊎ (values ≡ [])))
      outcome (done (u, values)) h = inr (inr (inr (u, values, refl, h)))
      outcome fault h = inl (refl, h)
      outcome raised h = inr (inl (refl, h))
      outcome full h = inr (inr (inl (refl, h)))
      outcome spent h = absurd h
