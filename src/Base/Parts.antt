-- ===== src/Base/Parts.antt =====
-- Where a list stands in a longer one, for copies out of and into blocks.
use Prim.Native.Nat.{ℕ, ◌+◌, ◌≤◌}
use mathlib.Core.Path.{◌≡◌, refl, sym, ap, ap₂, ◌∙◌}
use mathlib.Core.List.{List, [], ◌∷◌, ◌++◌, append_assoc, append-nil}
use mathlib.Core.Option.{some}
use native.Mathlib.Omega.{arith}
use randserver.Base.Lists.{length, length-append, get_elem?}
use randserver.Base.Bytes.{read_at, write_at}

-- `xs` stands in `bytes` at the position `p`.
pub record IsAt {ℓ} {A : Type ℓ} (bytes : List A) (p : ℕ) (xs : List A) : Type ℓ where
  pub before : List A
  pub after : List A
  pub whole : bytes ≡ before ++ (xs ++ after)
  pub position : length before ≡ p

module _ {ℓ} {A : Type ℓ} where
  pub read_at-inside :
      (xs ys zs : List A) → read_at (length xs) (length ys) (xs ++ (ys ++ zs)) ≡ some ys
  unfolding read_at
  read_at-inside [] [] zs = refl
  read_at-inside [] (y ∷ ys) zs = rw (read_at-inside [] ys zs) refl
  read_at-inside (x ∷ xs) ys zs = read_at-inside xs ys zs

  pub write_at-inside :
      (xs ys zs rest : List A)
      → length zs ≡ length ys
      → write_at (length xs) ys (xs ++ (zs ++ rest)) ≡ some (xs ++ (ys ++ rest))
  unfolding write_at
  write_at-inside [] [] [] rest e = refl
  write_at-inside [] [] (z ∷ zs) rest e = absurd (omega arith)
  write_at-inside [] (y ∷ ys) [] rest e = absurd (omega arith)
  write_at-inside [] (y ∷ ys) (z ∷ zs) rest e =
      rw (write_at-inside [] ys zs rest (omega arith)) refl
  write_at-inside (x ∷ xs) ys zs rest e = rw (write_at-inside xs ys zs rest e) refl

  pub get_elem?-inside :
      (xs : List A) (y : A) (ys : List A) → get_elem? (xs ++ y ∷ ys) (length xs) ≡ some y
  get_elem?-inside [] y ys = refl
  get_elem?-inside (x ∷ xs) y ys = get_elem?-inside xs y ys

  pub IsAt-read_at :
      (bytes : List A) (p : ℕ) (xs : List A)
      → IsAt bytes p xs
      → read_at p (length xs) bytes ≡ some xs
  IsAt-read_at bytes p xs h =
      ap₂ (λ k l. read_at k (length xs) l) (sym h.position) h.whole
      ∙ read_at-inside h.before xs h.after

  pub IsAt-get_elem? :
      (bytes : List A) (p : ℕ) (x : A) (xs : List A)
      → IsAt bytes p (x ∷ xs)
      → get_elem? bytes p ≡ some x
  IsAt-get_elem? bytes p x xs h =
      ap₂ get_elem? h.whole (sym h.position) ∙ get_elem?-inside h.before x (xs ++ h.after)

  pub IsAt-fits :
      (bytes : List A) (p : ℕ) (xs : List A) → IsAt bytes p xs → p + length xs ≤ length bytes
  IsAt-fits bytes p xs h = omega (
    arith,
    ap length h.whole,
    length-append h.before (xs ++ h.after),
    length-append xs h.after,
    h.position,
  )

  pub IsAt-front :
      (bytes : List A) (p : ℕ) (xs ys : List A) → IsAt bytes p (xs ++ ys) → IsAt bytes p xs
  IsAt-front bytes p xs ys h = record {
    before = h.before;
    after = ys ++ h.after;
    whole = h.whole ∙ ap (λ l. h.before ++ l) (append_assoc xs ys h.after);
    position = h.position;
  }

  pub IsAt-back :
      (bytes : List A) (p : ℕ) (xs ys : List A)
      → IsAt bytes p (xs ++ ys)
      → IsAt bytes (p + length xs) ys
  IsAt-back bytes p xs ys h = record {
    before = h.before ++ xs;
    after = h.after;
    whole =
        h.whole
        ∙ ap (λ l. h.before ++ l) (append_assoc xs ys h.after)
        ∙ sym (append_assoc h.before xs (ys ++ h.after));
    position = length-append h.before xs ∙ ap (λ k. k + length xs) h.position;
  }

  pub IsAt-self : (bytes : List A) → IsAt bytes 0 bytes
  IsAt-self bytes = record {
    before = [];
    after = [];
    whole = sym (append-nil bytes);
    position = refl;
  }
