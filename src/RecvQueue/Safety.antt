-- ===== src/RecvQueue/Safety.antt =====
-- The socket writes inside the memory of the queue.
use randserver.Base.{
  ℕ, ◌+◌, ◌-◌, ◌*◌, ◌%◌, ◌^◌, ◌≤◌, ◌<◌, ◌≡◌, refl, sym, ap, ◌∙◌, u32, Option, some, none, arith,
  List, length, get_elem?, length-set, get_elem?-set, ltb, leb, ◌==◌, ==→eq, eq→==, ◌||◌,
  Bool-cases, true, false, inl, inr,
}
use randserver.Base.Int.{ℤ, pos, negsuc}
use randserver.Base.Bytes.{
  read_at, le_bytes, length-le_bytes, from_le, from_le-le_bytes, read_at-some, write_at-Written,
}
use native.Mathlib.Nat.{mod-lt}
use randserver.Ring.{Block, Pool}
use randserver.RecvQueue.{
  RecvQueue, len_at, Place, in_lens, in_buffer, queue_prepare, queue_installed, queue_sized,
  queue_consume,
}

-- The slot of the message that is received.
abbrev pub slot : RecvQueue → ℕ
slot queue = queue.write % queue.pool_cnt

-- Behind a complete length stands its entry, and the slot has a buffer of that size.
pub record HasBuffer (queue : RecvQueue) : Type 0 where
  pub block : Block ℕ
  pub there : get_elem? queue.buffers (slot queue) ≡ some (some block)
  pub entry : len_at queue (slot queue) ≡ some (length block.cells)
  pub short : length block.cells < 2 ^ 31
  pub within : queue.check ≤ queue.en_byte + length block.cells

pub record Sound (queue : RecvQueue) : Type 0 where
  pub some_slots : 0 < queue.pool_cnt
  pub some_head : 0 < queue.en_byte
  pub few_bytes : queue.en_byte ≤ 4
  pub array : length queue.buffers ≡ queue.pool_cnt
  pub entries : length queue.lens ≡ 4 * queue.pool_cnt
  pub filling : queue.en_byte ≤ queue.check → HasBuffer queue

-- A place for `size` bytes lies in the entry or the buffer of the slot.
pub Inside : RecvQueue → ℕ × Option Place → Type 0
Inside queue (size, none) = size ≡ 0
Inside queue (size, some (in_lens at)) =
    (4 * slot queue ≤ at) × (at + size ≤ 4 * slot queue + 4) × (at + size ≤ length queue.lens)
Inside queue (size, some (in_buffer i at)) =
    (b : Block ℕ) × (get_elem? queue.buffers i ≡ some (some b)) × (at + size ≡ length b.cells)

slot_inside : (queue : RecvQueue) → Sound queue → 4 * slot queue + 4 ≤ length queue.lens
slot_inside queue v =
    let lt : slot queue < queue.pool_cnt = mod-lt queue.write v.some_slots in
    omega (arith, v.entries)

-- `recv_buff_prepare_vB` of a sound queue points to bytes of its own memory.
pub queue_prepare_lem :
    (queue : RecvQueue)
    → Sound queue
    → (place : ℕ × Option Place) × (queue_prepare queue ≡ some place) × Inside queue place
unfolding queue_prepare Inside
queue_prepare_lem queue v = elim (Bool-cases (queue.write == queue.read)) [
  | inl full ↦ ((0, none), rw full refl, refl)
  | inr free ↦ elim (Bool-cases (ltb queue.check queue.en_byte)) [
    | inl head ↦ (
      (queue.en_byte - queue.check, some (in_lens (4 * slot queue + queue.check))),
      rw (free, head) refl,
      (omega arith, ground (arith, v.few_bytes), ground (arith, v.few_bytes, slot_inside queue v)),
    )
    | inr body ↦
        let h = v.filling (ground arith) in
        let size = length h.block.cells in
        let done = queue.check - queue.en_byte in
        elim (Bool-cases (size == 0 || leb (2 ^ 31) size)) [
          | inl empty ↦ ((0, none), rw (free, body, h.entry, empty) refl, refl)
          | inr more ↦
              let exact : u32 (size + 2 ^ 32 - done) ≡ size - done =
                omega (arith, h.short, h.within) in
              (
                (size - done, some (in_buffer (slot queue) done)),
                rw (free, body, h.entry, more, exact) refl,
                (h.block, h.there, omega (arith, h.within)),
              )
        ]
  ]
]

-- The pool gives buffers of the size that is asked for, where it gives any.
abbrev pub IsExact : {S : Type 0} → Pool ℕ S → Type 0
IsExact {S = S} pool =
    (s s' : S) (n : ℕ) (b : Block ℕ) → pool.new_buff s n ≡ (some b, s') → length b.cells ≡ n

-- A change that leaves an incomplete length.
headed :
    (queue : RecvQueue) (lens : List ℕ) (check : ℕ)
    → Sound queue
    → length lens ≡ length queue.lens
    → check < queue.en_byte
    → Sound (record queue { lens = lens; check = check })
headed queue lens check v same less = record {
  some_slots = v.some_slots;
  some_head = v.some_head;
  few_bytes = v.few_bytes;
  array = v.array;
  entries = same ∙ v.entries;
  filling = λ more. absurd (omega arith);
}

-- A message is complete, or has more bytes.
completed :
    (queue : RecvQueue) (write : ℕ)
    → Sound queue
    → Sound (record queue { write = write; check = 0 })
completed queue write v = record {
  some_slots = v.some_slots;
  some_head = v.some_head;
  few_bytes = v.few_bytes;
  array = v.array;
  entries = v.entries;
  filling = λ more. absurd (omega (arith, v.some_head));
}

grown :
    (queue : RecvQueue) (check : ℕ) (v : Sound queue) (h : HasBuffer queue)
    → check ≤ queue.en_byte + length h.block.cells
    → Sound (record queue { check = check })
grown queue check v h within = record {
  some_slots = v.some_slots;
  some_head = v.some_head;
  few_bytes = v.few_bytes;
  array = v.array;
  entries = v.entries;
  filling = λ more. record {
    block = h.block;
    there = h.there;
    entry = h.entry;
    short = h.short;
    within = within;
  };
}

module _ {S : Type 0} (pool : Pool ℕ S) where
  queue_installed-Sound :
      (queue : RecvQueue) (size : ℕ) (found : Option (Block ℕ) × S)
      → Sound queue
      → len_at queue (slot queue) ≡ some size
      → size < 2 ^ 31
      → ((b : Block ℕ) (s' : S) → found ≡ (some b, s') → length b.cells ≡ size)
      → queue.check < queue.en_byte
      → Sound (queue_installed pool queue queue.en_byte found).1
  unfolding queue_installed
  queue_installed-Sound queue size (none, s) v entry short exact less = v
  queue_installed-Sound queue size (some b, s) v entry short exact less =
      let lt : slot queue < length queue.buffers =
        omega (arith, mod-lt queue.write v.some_slots, v.array) in
      let len = exact b s refl in
      record {
        some_slots = v.some_slots;
        some_head = v.some_head;
        few_bytes = v.few_bytes;
        array = length-set queue.buffers (slot queue) (some b) ∙ v.array;
        entries = v.entries;
        filling = λ more. record {
          block = b;
          there =
              get_elem?-set queue.buffers (slot queue) (slot queue) (some b) lt
              ∙ rw (eq→== (slot queue) (slot queue) refl) refl;
          entry = entry ∙ ap some (sym len);
          short = omega (arith, len);
          within = omega arith;
        };
      }

  queue_sized-Sound :
      (queue : RecvQueue) (s : S)
      → IsExact pool
      → Sound queue
      → queue.check < queue.en_byte
      → (t : ℤ × RecvQueue × S) × (queue_sized pool queue queue.en_byte s ≡ some t) × Sound t.1
  unfolding queue_sized
  queue_sized-Sound queue s exact v less =
      let at = 4 * slot queue in
      let room = slot_inside queue v in
      let (bytes, e, len) = read_at-some at queue.en_byte queue.lens (omega (arith, v.few_bytes)) in
      let size = from_le bytes - queue.en_byte in
      elim (Bool-cases (leb (2 ^ 31) (from_le bytes))) [
        | inl big ↦ ((negsuc 2, queue, s), rw (e, big) refl, v)
        | inr fits ↦ elim (Bool-cases (ltb (from_le bytes) queue.en_byte)) [
          | inl small ↦ ((negsuc 1, queue, s), rw (e, fits, small) refl, v)
          | inr large ↦
              let four = length-le_bytes 4 size in
              let short : size < 2 ^ 31 = ground arith in
              let (lens, e', w) =
                write_at-Written at (le_bytes 4 size) queue.lens (omega (arith, four)) in
              let entry : len_at (record queue { lens = lens }) (slot queue) ≡ some size =
                rw
                  (
                    ap (λ k. read_at at k lens) (sym four) ∙ w.inside,
                    from_le-le_bytes 4 size (omega arith),
                  )
                  refl in
              (
                queue_installed pool (record queue { lens = lens }) queue.en_byte
                    (pool.new_buff s size),
                rw (e, fits, large, e') refl,
                queue_installed-Sound (record queue { lens = lens }) size (pool.new_buff s size)
                    (headed queue lens queue.check v w.same_length less) entry short
                    (λ b s'. exact s s' size b) less,
              )
        ]
      ]

  -- A call while the length is incomplete, and one behind it.
  queue_consume_head :
      (queue : RecvQueue) (usize : ℕ) (s : S)
      → IsExact pool
      → Sound queue
      → (usize == 0) ≡ false
      → ltb queue.check queue.en_byte ≡ true
      → (t : ℤ × RecvQueue × S) × (queue_consume pool queue usize s ≡ some t) × Sound t.1
  unfolding queue_consume
  queue_consume_head queue usize s exact v some_bytes head =
      elim (Bool-cases (ltb queue.en_byte (queue.check + usize))) [
        | inl over ↦ ((negsuc 0, queue, s), rw (some_bytes, head, over) refl, v)
        | inr within ↦
            let sum : u32 (queue.check + usize) ≡ queue.check + usize =
              ground (arith, v.few_bytes) in
            elim (Bool-cases (queue.check + usize == queue.en_byte)) [
              | inl whole ↦
                  let (t, e, v') = queue_sized-Sound queue s exact v (ground arith) in
                  (t, rw (some_bytes, head, within, sum, whole, ==→eq _ _ whole) e, v')
              | inr part ↦ (
                (pos 0, record queue { check = queue.check + usize }, s),
                rw (some_bytes, head, within, sum, part) refl,
                headed queue queue.lens (queue.check + usize) v refl (ground arith),
              )
            ]
      ]

  queue_consume_body :
      (queue : RecvQueue) (usize : ℕ) (s : S)
      → Sound queue
      → (usize == 0) ≡ false
      → ltb queue.check queue.en_byte ≡ false
      → (t : ℤ × RecvQueue × S) × (queue_consume pool queue usize s ≡ some t) × Sound t.1
  unfolding queue_consume
  queue_consume_body queue usize s v some_bytes body =
      let h = v.filling (ground arith) in
      let size = length h.block.cells in
      elim (Bool-cases (ltb size (queue.check - queue.en_byte + usize))) [
        | inl over ↦ ((negsuc 2, queue, s), rw (some_bytes, body, h.entry, over) refl, v)
        | inr within ↦
            let sum : u32 (queue.check + usize) ≡ queue.check + usize =
              ground (arith, v.few_bytes, h.short) in
            elim (Bool-cases (queue.check + usize - queue.en_byte == size)) [
              | inl whole ↦
                  let next = u32 (queue.write + 1) % (2 * queue.pool_cnt) in
                  (
                    (pos 1, record queue { write = next; check = 0 }, s),
                    rw (some_bytes, body, h.entry, within, sum, whole) refl,
                    completed queue next v,
                  )
              | inr part ↦ (
                (pos 0, record queue { check = queue.check + usize }, s),
                rw (some_bytes, body, h.entry, within, sum, part) refl,
                grown queue (queue.check + usize) v h (ground arith),
              )
            ]
      ]

  -- `recv_buff_consume_vB` returns and leaves a sound queue sound, whatever the received bytes are.
  pub queue_consume_lem :
      (queue : RecvQueue) (usize : ℕ) (s : S)
      → IsExact pool
      → Sound queue
      → (t : ℤ × RecvQueue × S) × (queue_consume pool queue usize s ≡ some t) × Sound t.1
  unfolding queue_consume
  queue_consume_lem queue usize s exact v = elim (Bool-cases (usize == 0)) [
    | inl nothing ↦ ((pos 0, queue, s), rw nothing refl, v)
    | inr some_bytes ↦ elim (Bool-cases (ltb queue.check queue.en_byte)) [
      | inl head ↦ queue_consume_head queue usize s exact v some_bytes head
      | inr body ↦ queue_consume_body queue usize s v some_bytes body
    ]
  ]

  -- In a sound queue, with a pool whose buffers have the size that is asked for, `recv_buff_prepare_vB`
  -- returns and points to bytes of the entry or the buffer of the message that is received, and
  -- `recv_buff_consume_vB` of any number of bytes returns and leaves a sound queue, errors included.
  pub queue_memory_lem :
      (queue : RecvQueue) (usize : ℕ) (s : S)
      → IsExact pool
      → Sound queue
      → ((place : ℕ × Option Place) × (queue_prepare queue ≡ some place) × Inside queue place)
        × ((t : ℤ × RecvQueue × S) × (queue_consume pool queue usize s ≡ some t) × Sound t.1)
  queue_memory_lem queue usize s exact v =
      (queue_prepare_lem queue v, queue_consume_lem queue usize s exact v)
