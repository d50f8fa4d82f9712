-- ===== src/Ffid/Life.antt =====
-- The life of an id: `ffid_new_id`, `ffid_has_id` and `ffid_del_id` in a row.
use randserver.Base.{
  ℕ, ◌+◌, ◌%◌, ◌<◌, ◌≡◌, ◌∙◌, ap, true, false, inl, inr, ◌⊎◌, some, List, ◌∷◌, ◌++◌, [], eq→==,
  arith,
}
use randserver.Ffid.{Ffid, new_id, has_id, del_id}
use randserver.Ffid.State.{IsValid, Has, has_id-Has}
use randserver.Ffid.Take.{new_id_lem}
use randserver.Ffid.Free.{next_id, del_id_lem}

has_id-true :
    (ff : Ffid) (free : List ℕ) (id : ℕ)
    → IsValid ff free
    → Has ff id
    → has_id ff (id + 1) ≡ some (true, some (id % ff.max_size))
has_id-true ff free id v h =
    has_id-Has ff free id v ∙ ap (λ b. some (b, some (id % ff.max_size))) (eq→== _ _ h)

has_id-false :
    (ff : Ffid) (free : List ℕ) (id : ℕ)
    → IsValid ff free
    → ¬ Has ff id
    → has_id ff (id + 1) ≡ some (false, some (id % ff.max_size))
has_id-false ff free id v h =
    has_id-Has ff free id v ∙ ap (λ b. some (b, some (id % ff.max_size))) (ground arith)

-- In a valid pool whose queue of free ids begins with `id`, where the pool loops or `id` lies more
-- than a pool's size below the limit: `ffid_new_id` hands out `id` with an index; `ffid_has_id`
-- then answers that it is had, with the same index; `ffid_del_id` takes it back, and `ffid_has_id`
-- then answers that it is not had, with the same index. Afterwards the rest of the queue is free,
-- with the next id of the slot at its end.
pub has_id-new_id-del_id :
    (ff : Ffid) (id : ℕ) (rest : List ℕ)
    → IsValid ff (id ∷ rest)
    → (ff.is_loop ≡ true) ⊎ (id + ff.max_size < ff.max_limit)
    → (index : ℕ) × (ff1 : Ffid) × (ff2 : Ffid) × (new_id ff ≡ some (id + 1, index, ff1))
      × (has_id ff1 (id + 1) ≡ some (true, some index))
      × (del_id ff1 (id + 1) ≡ some ff2)
      × (has_id ff2 (id + 1) ≡ some (false, some index))
      × IsValid ff2 (rest ++ next_id ff1 id ∷ [])
has_id-new_id-del_id ff id rest v late =
    let (ff1, e1, t) = new_id_lem ff id rest v in
    let below : id < ff1.max_limit = omega (arith, v.low.0, v.limit, t.valid.limit) in
    let late1 : (ff1.is_loop ≡ true) ⊎ (id + ff1.max_size < ff1.max_limit) = elim late [
      | inl loops ↦ inl (t.loop_kept ∙ loops)
      | inr far ↦ inr (omega (arith, v.limit, t.valid.limit, t.size_kept))
    ] in
    let (ff2, e2, f) = del_id_lem ff1 rest id t.valid t.has_it below late1 in
    (
      id % ff.max_size,
      ff1,
      ff2,
      e1,
      has_id-true ff1 rest id t.valid t.has_it ∙ ap (λ m. some (true, some (id % m))) t.size_kept,
      e2,
      has_id-false ff2 (rest ++ next_id ff1 id ∷ []) id f.valid f.gone
          ∙ ap (λ m. some (false, some (id % m))) (f.size_kept ∙ t.size_kept),
      f.valid,
    )
