-- ===== src/Ffid.antt =====
-- engine/tool/ffid.c: a pool of slots that hands out ids. A free slot holds the id that comes next
-- in the list of free ids, a used slot its own id. `none` is an access outside the array or through
-- a null array.
pub mod Links
pub mod State
pub mod Take
pub mod Free
pub mod Create
pub mod Life
mod Tests
use randserver.Base.{
  ℕ, zero, suc, ◌+◌, ◌-◌, ◌%◌, ◌^◌, Bool, true, false, Option, none, some, List, length, get_elem?,
  store, ltb, leb, ◌==◌, if◌then◌else◌, ◌>>=◌, ◌||◌, not, u16, u32,
}

-- `struct ffid`
pub record Ffid : Type 0 where
  pub ts : List ℕ
  pub max_limit : ℕ
  pub first : ℕ
  pub end : ℕ
  pub cur_size : ℕ
  pub max_size : ℕ
  pub is_loop : Bool

-- The loop of `ffid_create`, with the rounds that are left.
pub fill : ℕ → ℕ → List ℕ → Option (List ℕ)
fill zero i ts = some ts
fill (suc rounds) i ts = store ts i (i + 1) >>= λ ts'. fill rounds (i + 1) ts'

-- `ffid_create` on the memory that its second `malloc` gave, after its first gave some.
pub create : List ℕ → ℕ → Bool → Option Ffid
create memory max_size is_loop =
    let end = u16 (max_size + 2 ^ 16 - 1) in
    let limit = 2 ^ 32 - 1 in
    do
      filled ← fill end 0 memory
      ts ← store filled end limit
      some (record {
        ts = ts;
        max_limit = limit;
        first = 0;
        end = end;
        cur_size = 0;
        max_size = max_size;
        is_loop = is_loop;
      })

-- `ffid_new_id`: the id, 0 if there is none, and the index that is written with it.
pub new_id : Ffid → Option (ℕ × ℕ × Ffid)
new_id ff =
    let id_index = ff.first % ff.max_size in
    let taken = do
      next ← get_elem? ff.ts id_index
      ts ← store ff.ts id_index ff.first
      some (
        u32 (ff.first + 1),
        id_index,
        record ff { first = next; ts = ts; cur_size = u16 (ff.cur_size + 1) },
      )
    in if leb ff.max_limit ff.first then some (0, 0, ff) else taken

-- `ffid_has_id`: the answer, and what is written through `index`, if anything.
pub has_id : Ffid → ℕ → Option (Bool × Option ℕ)
has_id ff id =
    let id_index = u16 ((id - 1) % ff.max_size) in
    let found = get_elem? ff.ts id_index >>= λ t. some (t == id - 1, some id_index) in
    if id == 0 then some (false, none) else found

-- `ffid_del_id` from the choice of `next_id` on, for the id less one.
pub free_slot : Ffid → ℕ → ℕ → Option Ffid
free_slot ff id_index next_id =
    let linked = store ff.ts ff.end next_id in
    let cur_size = u16 (ff.cur_size + 2 ^ 16 - 1) in
    let onto_empty = store ff.ts id_index ff.max_limit >>= λ ts.
    some (record ff { first = next_id; end = id_index; ts = ts; cur_size = cur_size }) in
    let behind = linked >>= λ ts. store ts id_index ff.max_limit >>= λ ts'.
    some (record ff { end = id_index; ts = ts'; cur_size = cur_size }) in
    if leb ff.max_limit ff.first then onto_empty else behind

-- `ffid_del_id`
pub del_id : Ffid → ℕ → Option Ffid
del_id ff id =
    let id' = id - 1 in
    let id_index = id' % ff.max_size in
    let near_limit = leb ff.max_limit id' || leb (u32 (ff.max_limit + 2 ^ 32 - id')) ff.max_size in
    let retired = store ff.ts id_index ff.max_limit >>= λ ts. some (record ff { ts = ts }) in
    let last = if ff.is_loop then free_slot ff id_index id_index else retired in
    let next = free_slot ff id_index (u32 (id' + ff.max_size)) in
    if id == 0 then some ff else if near_limit then last else next

-- `ffid_size`
pub cur_ids : Ffid → ℕ
cur_ids ff = ff.cur_size

-- `ffid_index`
pub index_of : Ffid → ℕ → ℕ
index_of ff id = u16 (u32 (id + 2 ^ 32 - 1) % ff.max_size)

-- `ffid_id`
pub id_at : Ffid → ℕ → Option ℕ
id_at ff index =
    let found = get_elem? ff.ts index >>= λ id.
    some (if not (id % ff.max_size == index) then 0 else u32 (id + 1)) in
    if leb ff.max_size index then some 0 else found
