-- ===== src/Ffid/Free.antt =====
-- `ffid_del_id` puts the next id of the slot at the end of the queue of free ids.
use randserver.Base.{
  ℕ, ◌+◌, ◌-◌, ◌%◌, ◌^◌, ◌≤◌, ◌<◌, ◌≡◌, ◌≢◌, refl, sym, ◌∙◌, true, false, Bool-cases, inl, inr, ◌⊎◌,
  some, List, [], ◌∷◌, ◌++◌, length, get_or-set, set, length-set, ltb, leb, lt→ltb, ltb→lt, ◌==◌,
  if◌then◌else◌, u16, u32, arith,
}
use native.Mathlib.Nat.{add-mod_right, mod-mod, mod-lt}
use randserver.Ffid.{Ffid, cur_ids, free_slot, del_id}
use randserver.Ffid.Links.{
  held-set_twice, Avoids-moved, Avoids, Linked-set, end-Avoids, held-Linked, end-lt, Linked-last,
  Apart-last, All-last,
}
use randserver.Ffid.State.{IsFree, IsValid, Has}

-- A freed slot, whose next id is `next`.
pub record Freed (ff ff' : Ffid) (id : ℕ) (free : List ℕ) : Type 0 where
  pub valid : IsValid ff' free
  pub size_kept : ff'.max_size ≡ ff.max_size
  pub gone : ¬ Has ff' id
  pub others :
      (other : ℕ)
      → other % ff.max_size ≢ id % ff.max_size
      → other < ff.max_limit
      → Has ff other
      → Has ff' other

module _ (ff : Ffid) (id next : ℕ) (same : next % ff.max_size ≡ id % ff.max_size) (h : Has ff id)
    (below : id < ff.max_limit) (next_below : next < ff.max_limit) where
  free_slot-empty :
      IsValid ff []
      → (ff' : Ffid) × (free_slot ff (id % ff.max_size) next ≡ some ff')
        × Freed ff ff' id (next ∷ [])
  unfolding free_slot
  free_slot-empty v =
      let i = id % ff.max_size in
      let inside : i < length ff.ts = omega (arith, v.array, v.positive) in
      let none_left : leb ff.max_limit ff.first ≡ true = ground (arith, v.links) in
      let written = λ (j : ℕ). get_or-set ff.ts i j ff.max_limit 0 inside in
      let ff' : Ffid = record ff {
        first = next;
        end = i;
        ts = set ff.ts i ff.max_limit;
        cur_size = u16 (ff.cur_size + 2 ^ 16 - 1);
      } in
      (
        ff',
        rw (none_left, lt→ltb _ _ inside) refl,
        record {
          valid = record {
            array = length-set ff.ts i ff.max_limit ∙ v.array;
            positive = v.positive;
            small = v.small;
            limit = v.limit;
            links = (refl, (ground (arith, written (next % ff.max_size), same), sym same));
            apart = (tt, tt);
            low = (next_below, tt);
          };
          size_kept = refl;
          gone = λ had. ground (arith, written i, had, below);
          others = λ other ne lt had. ground (arith, written (other % ff.max_size), ne, had);
        },
      )

  free_slot-queue :
      (f : ℕ) (rest : List ℕ)
      → IsValid ff (f ∷ rest)
      → (ff' : Ffid) × (free_slot ff (id % ff.max_size) next ≡ some ff')
        × Freed ff ff' id (f ∷ rest ++ next ∷ [])
  unfolding free_slot
  free_slot-queue f rest v =
      let i = id % ff.max_size in
      let inside : i < length ff.ts = omega (arith, v.array, v.positive) in
      let links = v.links.1 in
      let end_inside : ff.end < length ff.ts =
        omega
          (arith, v.array, end-lt ff.max_size ff.max_limit ff.ts ff.end f rest v.positive links) in
      let some_left : leb ff.max_limit ff.first ≡ false = ground (arith, v.links.0, v.low.0) in
      let avoids = λ (j : ℕ) (lt : j < ff.max_limit) (had : Has ff j).
        held-Linked ff.max_size ff.max_limit ff.ts ff.end f rest j v.apart v.low links had lt in
      let avoided : Avoids ff.max_size (next % ff.max_size) (f ∷ rest) =
        Avoids-moved ff.max_size i (next % ff.max_size) (f ∷ rest) (sym same) (avoids id below h) in
      let linked = set ff.ts ff.end next in
      let written =
        λ (j : ℕ). held-set_twice ff.ts ff.end next i ff.max_limit j end_inside inside in
      let ff' : Ffid = record ff {
        end = i;
        ts = set linked i ff.max_limit;
        cur_size = u16 (ff.cur_size + 2 ^ 16 - 1);
      } in
      (
        ff',
        rw
            (
              some_left,
              lt→ltb _ _ end_inside,
              lt→ltb i (length linked) (omega (arith, length-set ff.ts ff.end next)),
            )
            refl,
        record {
          valid = record {
            array = length-set linked i ff.max_limit ∙ length-set ff.ts ff.end next ∙ v.array;
            positive = v.positive;
            small = v.small;
            limit = v.limit;
            links = (
              v.links.0,
              Linked-last ff.max_size ff.max_limit ff.ts ff.end f rest next i same v.array
                  v.positive (omega (arith, v.array)) v.apart (avoids id below h) links,
            );
            apart = Apart-last ff.max_size ff.max_limit (f ∷ rest) next v.apart avoided;
            low = All-last ff.max_size ff.max_limit (f ∷ rest) next v.low next_below;
          };
          size_kept = refl;
          gone = λ had. ground (arith, written i, had, below);
          others = λ other ne lt had. ground (
            arith,
            written (other % ff.max_size),
            ne,
            had,
            end-Avoids ff.max_size ff.max_limit ff.ts ff.end f rest (other % ff.max_size)
                (avoids other lt had) links,
          );
        },
      )

  pub free_slot_lem :
      (free : List ℕ)
      → IsValid ff free
      → (ff' : Ffid) × (free_slot ff (id % ff.max_size) next ≡ some ff')
        × Freed ff ff' id (free ++ next ∷ [])
  free_slot_lem [] v = free_slot-empty v
  free_slot_lem (f ∷ rest) v = free_slot-queue f rest v

-- The id that a slot has after `id`: a pool's size further on, or below the limit the slot's index.
abbrev pub next_id : Ffid → ℕ → ℕ
next_id ff id = if ltb (id + ff.max_size) ff.max_limit then id + ff.max_size else id % ff.max_size

next_id-slot :
    (ff : Ffid) (free : List ℕ) (id : ℕ)
    → IsValid ff free
    → (next_id ff id % ff.max_size ≡ id % ff.max_size) × (next_id ff id < ff.max_limit)
next_id-slot ff free id v = elim (Bool-cases (ltb (id + ff.max_size) ff.max_limit)) [
  | inl lt ↦ rw lt (add-mod_right id ff.max_size, ltb→lt _ _ lt)
  | inr ge ↦ rw ge (mod-mod id ff.max_size, omega (arith, mod-lt id v.positive, v.small, v.limit))
]

-- Which slot and which next id `ffid_del_id` takes.
del_id-free_slot :
    (ff : Ffid) (id : ℕ)
    → ff.max_limit ≡ 2 ^ 32 - 1
    → ff.max_size < 2 ^ 16
    → id < ff.max_limit
    → (ff.is_loop ≡ true) ⊎ (id + ff.max_size < ff.max_limit)
    → del_id ff (id + 1) ≡ free_slot ff (id % ff.max_size) (next_id ff id)
unfolding del_id
del_id-free_slot ff id limit small b late =
    let back : id + 1 - 1 ≡ id = omega arith in
    let no_zero : (id + 1 == 0) ≡ false = ground arith in
    let low : leb ff.max_limit id ≡ false = ground arith in
    elim (Bool-cases (ltb (id + ff.max_size) ff.max_limit)) [
      | inl lt ↦
          let near : leb (u32 (ff.max_limit + 2 ^ 32 - id)) ff.max_size ≡ false = ground arith in
          let step : u32 (id + ff.max_size) ≡ id + ff.max_size = ground arith in
          rw (no_zero, back, low, near, lt, step) refl
      | inr ge ↦
          let near : leb (u32 (ff.max_limit + 2 ^ 32 - id)) ff.max_size ≡ true = ground arith in
          let loops : ff.is_loop ≡ true = ground arith in
          rw (no_zero, back, low, near, ge, loops) refl
    ]

-- Giving back an id that is had, in a valid pool that loops or where the id lies more than a pool's
-- size below the limit, puts the next id of its slot at the end of the queue of free ids; the id is
-- no longer had, the other ids are had as before.
pub del_id_lem :
    (ff : Ffid) (free : List ℕ) (id : ℕ)
    → IsValid ff free
    → Has ff id
    → id < ff.max_limit
    → (ff.is_loop ≡ true) ⊎ (id + ff.max_size < ff.max_limit)
    → (ff' : Ffid) × (del_id ff (id + 1) ≡ some ff') × Freed ff ff' id (free ++ next_id ff id ∷ [])
del_id_lem ff free id v h b late =
    let (same, below) = next_id-slot ff free id v in
    let (ff', e, freed) = free_slot_lem ff id (next_id ff id) same h b below free v in
    (ff', del_id-free_slot ff id v.limit v.small b late ∙ e, freed)

retire_links :
    (ff : Ffid) (free : List ℕ) (id : ℕ)
    → IsValid ff free
    → Has ff id
    → id < ff.max_limit
    → IsFree (record ff { ts = set ff.ts (id % ff.max_size) ff.max_limit }) free
retire_links ff [] id v h b = v.links
retire_links ff (f ∷ rest) id v h b = (
  v.links.0,
  Linked-set ff.max_size ff.max_limit ff.ts ff.end f rest (id % ff.max_size) ff.max_limit
      (omega (arith, v.array, v.positive))
      (held-Linked ff.max_size ff.max_limit ff.ts ff.end f rest id v.apart v.low v.links.1 h b)
      v.links.1,
)

-- In a valid pool that does not loop, an id that is had and lies within a pool's size of the limit
-- is retired: it is no longer had, no slot is freed, the queue of free ids and the other ids that
-- are had stay, and the number of ids in use stays.
pub del_id-retired :
    (ff : Ffid) (free : List ℕ) (id : ℕ)
    → IsValid ff free
    → Has ff id
    → id < ff.max_limit
    → ff.is_loop ≡ false
    → ff.max_limit ≤ id + ff.max_size
    → (ff' : Ffid) × (del_id ff (id + 1) ≡ some ff')
      × Freed ff ff' id free
      × (cur_ids ff' ≡ cur_ids ff)
unfolding del_id cur_ids
del_id-retired ff free id v h b fixed near =
    let i = id % ff.max_size in
    let inside : i < length ff.ts = omega (arith, v.array, v.positive) in
    let back : id + 1 - 1 ≡ id = omega arith in
    let no_zero : (id + 1 == 0) ≡ false = ground arith in
    let low : leb ff.max_limit id ≡ false = ground arith in
    let close : leb (u32 (ff.max_limit + 2 ^ 32 - id)) ff.max_size ≡ true =
      ground (arith, v.limit, v.small) in
    let written = λ (j : ℕ). get_or-set ff.ts i j ff.max_limit 0 inside in
    let ff' : Ffid = record ff { ts = set ff.ts i ff.max_limit } in
    (
      ff',
      rw (no_zero, back, low, close, fixed, lt→ltb _ _ inside) refl,
      record {
        valid = record {
          array = length-set ff.ts i ff.max_limit ∙ v.array;
          positive = v.positive;
          small = v.small;
          limit = v.limit;
          links = retire_links ff free id v h b;
          apart = v.apart;
          low = v.low;
        };
        size_kept = refl;
        gone = λ had. ground (arith, written i, had, b);
        others = λ other ne lt had. ground (arith, written (other % ff.max_size), ne, had);
      },
      refl,
    )
