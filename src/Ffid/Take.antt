-- ===== src/Ffid/Take.antt =====
-- `ffid_new_id` hands out the first id of the queue of free ids.
use randserver.Base.{
  ℕ, ◌+◌, ◌%◌, ◌<◌, ◌≡◌, ◌≢◌, refl, ◌∙◌, true, false, some, List, [], ◌∷◌, length, get_elem?-get_or,
  get_or-set, set, length-set, leb, lt→ltb, u16, u32, arith,
}
use randserver.Ffid.{Ffid, new_id}
use randserver.Ffid.Links.{held, Linked-set}
use randserver.Ffid.State.{IsFree, IsValid, Has}

-- A new id.
pub record Taken (ff ff' : Ffid) (id : ℕ) (free : List ℕ) : Type 0 where
  pub valid : IsValid ff' free
  pub size_kept : ff'.max_size ≡ ff.max_size
  pub loop_kept : ff'.is_loop ≡ ff.is_loop
  pub has_it : Has ff' id
  pub others : (other : ℕ) → other % ff.max_size ≢ id % ff.max_size → Has ff other → Has ff' other

take_links :
    (ff : Ffid) (id : ℕ) (rest : List ℕ) (next n : ℕ)
    → IsValid ff (id ∷ rest)
    → held ff.ts (id % ff.max_size) ≡ next
    → IsFree (record ff { first = next; ts = set ff.ts (id % ff.max_size) id; cur_size = n }) rest
take_links ff id [] next n v e = omega (arith, v.links.1.0)
take_links ff id (x ∷ rest) next n v e = (
  omega (arith, v.links.1.0),
  Linked-set ff.max_size ff.max_limit ff.ts ff.end x rest (id % ff.max_size) id
      (omega (arith, v.array, v.positive)) v.apart.0 v.links.1.1,
)

first_free : (ff : Ffid) (id : ℕ) (rest : List ℕ) → IsValid ff (id ∷ rest) → ff.first ≡ id
first_free ff id rest v = v.links.0

-- While an id is free in a valid pool, `ffid_new_id` hands out the first of the queue, with its
-- slot as the index: the id is then had, the other ids are had as before, and the rest of the queue
-- is free.
pub new_id_lem :
    (ff : Ffid) (id : ℕ) (rest : List ℕ)
    → IsValid ff (id ∷ rest)
    → (ff' : Ffid) × (new_id ff ≡ some (id + 1, id % ff.max_size, ff')) × Taken ff ff' id rest
unfolding new_id
new_id_lem ff id rest v =
    let inside : id % ff.max_size < length ff.ts = omega (arith, v.array, v.positive) in
    let some_left : leb ff.max_limit id ≡ false = ground (arith, v.low.0) in
    let number : u32 (id + 1) ≡ id + 1 = omega (arith, v.low.0, v.limit) in
    let written = get_or-set ff.ts (id % ff.max_size) in
    let next = held ff.ts (id % ff.max_size) in
    let ff' : Ffid = record ff {
      first = next;
      ts = set ff.ts (id % ff.max_size) id;
      cur_size = u16 (ff.cur_size + 1);
    } in
    (
      ff',
      rw
          (
            first_free ff id rest v,
            some_left,
            get_elem?-get_or ff.ts (id % ff.max_size) 0 inside,
            lt→ltb _ _ inside,
            number,
          )
          refl,
      record {
        valid = record {
          array = length-set ff.ts (id % ff.max_size) id ∙ v.array;
          positive = v.positive;
          small = v.small;
          limit = v.limit;
          links =
              take_links ff id rest (held ff.ts (id % ff.max_size)) (u16 (ff.cur_size + 1)) v refl;
          apart = v.apart.1;
          low = v.low.1;
        };
        size_kept = refl;
        loop_kept = refl;
        has_it = ground (arith, written (id % ff.max_size) id 0 inside);
        others = λ other ne h. ground (arith, written (other % ff.max_size) id 0 inside, ne, h);
      },
    )

-- With no free id left `ffid_new_id` returns 0 and changes nothing.
new_id-none : (ff : Ffid) → IsValid ff [] → new_id ff ≡ some (0, 0, ff)
unfolding new_id
new_id-none ff v =
    let none_left : leb ff.max_limit ff.first ≡ true = ground (arith, v.links) in rw none_left refl
