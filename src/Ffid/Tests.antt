-- ===== src/Ffid/Tests.antt =====
-- Runs of ffid.c on a pool of three slots, and its theorems there.
use randserver.Base.{ℕ, ◌+◌, ◌%◌, ◌≡◌, refl, true, false, inr, some, [], ◌∷◌, ◌++◌, arith}
use randserver.Ffid.{Ffid, create, new_id, has_id, del_id, cur_ids, index_of, id_at}
use randserver.Ffid.State.{IsValid, id_at-index_of}
use randserver.Ffid.Take.{Taken, new_id_lem}
use randserver.Ffid.Free.{Freed, next_id, del_id_lem, del_id-retired}
use randserver.Ffid.Create.{ids_from, create_lem}
use randserver.Ffid.Life.{has_id-new_id-del_id}

-- Id 4 is in use in slot 1; 3 and then 5 are free.
abbrev pool : Ffid
pool = record {
  ts = 5 ∷ 4 ∷ 4294967295 ∷ [];
  max_limit = 4294967295;
  first = 3;
  end = 2;
  cur_size = 1;
  max_size = 3;
  is_loop = false;
}

pool-IsValid : IsValid pool (3 ∷ 5 ∷ [])
pool-IsValid = record {
  array = refl;
  positive = omega arith;
  small = omega arith;
  limit = refl;
  links = (refl, (refl, (refl, refl)));
  apart = ((λ e. absurd (omega arith), tt), (tt, tt));
  low = (omega arith, (omega arith, tt));
}

-- Id 4294967293 is in use in slot 0, at the limit.
abbrev worn : Ffid
worn = record pool { ts = 4294967292 ∷ 4 ∷ 4294967295 ∷ []; first = 5 }

worn-IsValid : IsValid worn (5 ∷ [])
worn-IsValid = record {
  array = refl;
  positive = omega arith;
  small = omega arith;
  limit = refl;
  links = (refl, (refl, refl));
  apart = (tt, tt);
  low = (omega arith, tt);
}

new_id_lem_example :
    (ff' : Ffid) × (new_id pool ≡ some (3 + 1, 3 % 3, ff')) × Taken pool ff' 3 (5 ∷ [])
new_id_lem_example = new_id_lem pool 3 (5 ∷ []) pool-IsValid

del_id_lem_example :
    (ff' : Ffid) × (del_id pool (4 + 1) ≡ some ff')
    × Freed pool ff' 4 ((3 ∷ 5 ∷ []) ++ next_id pool 4 ∷ [])
del_id_lem_example =
    del_id_lem pool (3 ∷ 5 ∷ []) 4 pool-IsValid refl (omega arith) (inr (omega arith))

del_id-retired_example :
    (ff' : Ffid) × (del_id worn (4294967292 + 1) ≡ some ff')
    × Freed worn ff' 4294967292 (5 ∷ [])
    × (cur_ids ff' ≡ cur_ids worn)
del_id-retired_example =
    del_id-retired worn (5 ∷ []) 4294967292 worn-IsValid refl (omega arith) refl (omega arith)

create_lem_example :
    (ff : Ffid) × (create (7 ∷ 7 ∷ 7 ∷ []) 3 true ≡ some ff) × IsValid ff (ids_from 0 3)
create_lem_example = create_lem (7 ∷ 7 ∷ 7 ∷ []) 3 true refl (omega arith) (omega arith)

has_id-new_id-del_id_example :
    (index : ℕ) × (ff1 : Ffid) × (ff2 : Ffid) × (new_id pool ≡ some (3 + 1, index, ff1))
    × (has_id ff1 (3 + 1) ≡ some (true, some index))
    × (del_id ff1 (3 + 1) ≡ some ff2)
    × (has_id ff2 (3 + 1) ≡ some (false, some index))
    × IsValid ff2 ((5 ∷ []) ++ next_id ff1 3 ∷ [])
has_id-new_id-del_id_example = has_id-new_id-del_id pool 3 (5 ∷ []) pool-IsValid (inr (omega arith))

id_at-index_of_example :
    (index_of pool (4 + 1) ≡ 4 % 3) × (id_at pool (index_of pool (4 + 1)) ≡ some (4 + 1))
id_at-index_of_example = id_at-index_of pool (3 ∷ 5 ∷ []) 4 pool-IsValid refl (omega arith)
