-- ===== src/Bytes/LogCodec.antt =====
-- What a log file needs of its record format, and reading such a file back: the loops of
-- internal/storage/wal/reader.go and of `replayLogFile` in internal/raft/filestorage.go.
use boiler_pulse.Prelude.{
  ℕ, zero, suc, ◌-◌, ◌≤◌, ◌<◌, ◌≡◌, refl, sym, ap, ◌∙◌, List, [], ◌∷◌, ◌++◌, arith, length, take,
  length-append, append_assoc, All, take_append_le, take_append_ge,
}
use native.Mathlib.Decide.{dec_lt}
use boiler_pulse.Bytes.{ReadError, Result, ok, err}

-- `decode` returns the record and what follows it. The laws hold for the records that fit.
pub record LogCodec (A : Type 0) : Type 1 where
  pub encode : A → List ℕ
  pub decode : List ℕ → Result (A × List ℕ)
  pub Fits : A → Type 0
  pub encode_pos : (a : A) → 0 < length (encode a)
  pub round_trip : (a : A) (rest : List ℕ) → Fits a → decode (encode a ++ rest) ≡ ok (a, rest)
  pub torn :
      (a : A) (k : ℕ)
      → Fits a
      → k < length (encode a)
      → (e : ReadError) × (decode (take k (encode a)) ≡ err e)

pub All-take {ℓ} :
    {A : Type 0} (P : A → Type ℓ) (j : ℕ) (xs : List A) → All P xs → All P (take j xs)
All-take P zero xs v = tt
All-take P (suc j) [] v = tt
All-take P (suc j) (a ∷ xs) (va, vs) = (va, All-take P j xs vs)

module _ {A : Type 0} (c : LogCodec A) where
  -- The records written one after the other.
  unfoldable pub write_all : List A → List ℕ
  write_all [] = []
  write_all (a ∷ xs) = c.encode a ++ write_all xs

  -- Records are read until the first error of any kind, on fuel.
  unfoldable pub read_loop : ℕ → List ℕ → List A
  read_loop zero input = []
  read_loop (suc fuel) input = elim (c.decode input) [
    | err e ↦ []
    | ok (a, rest) ↦ a ∷ read_loop fuel rest
  ]

  -- A record takes a byte at least, so there are fewer records than `length input + 1`.
  unfoldable pub read_all : List ℕ → List A
  unfolding read_loop
  read_all input = read_loop (suc (length input)) input

  read_loop_ok :
      (fuel : ℕ) (input : List ℕ) (a : A) (rest : List ℕ)
      → c.decode input ≡ ok (a, rest)
      → read_loop (suc fuel) input ≡ a ∷ read_loop fuel rest
  unfolding read_loop
  read_loop_ok fuel input a rest h = rw (h, read_loop)

  read_loop_err :
      (fuel : ℕ) (input : List ℕ) (e : ReadError)
      → c.decode input ≡ err e
      → read_loop fuel input ≡ []
  unfolding read_loop
  read_loop_err zero input e h = refl
  read_loop_err (suc fuel) input e h = rw (h, read_loop)

  pub length-write_all-ge : (xs : List A) → length xs ≤ length (write_all xs)
  unfolding write_all
  length-write_all-ge [] = omega arith
  length-write_all-ge (a ∷ xs) =
      omega
        (arith, length-append (c.encode a) (write_all xs), c.encode_pos a, length-write_all-ge xs)

  read_loop-write_all :
      (xs : List A) (tail : List ℕ) (fuel : ℕ) (e : ReadError)
      → All c.Fits xs
      → c.decode tail ≡ err e
      → length xs < fuel
      → read_loop fuel (write_all xs ++ tail) ≡ xs
  unfolding write_all
  read_loop-write_all [] tail fuel e v h lt = read_loop_err fuel tail e h
  read_loop-write_all (a ∷ xs) tail zero e v h lt = elim lt [ ]
  read_loop-write_all (a ∷ xs) tail (suc fuel) e (va, vs) h lt =
      ap (read_loop (suc fuel)) (append_assoc (c.encode a) (write_all xs) tail)
      ∙ read_loop_ok fuel _ a (write_all xs ++ tail) (c.round_trip a (write_all xs ++ tail) va)
      ∙ ap (◌∷◌ a) (read_loop-write_all xs tail fuel e vs h (omega arith))

  -- Whatever follows the records, if it begins with no readable record, all of the records are
  -- read back and nothing else.
  pub read_all-write_all :
      (xs : List A) (tail : List ℕ) (e : ReadError)
      → All c.Fits xs
      → c.decode tail ≡ err e
      → read_all (write_all xs ++ tail) ≡ xs
  unfolding read_all
  read_all-write_all xs tail e v h =
      read_loop-write_all xs tail (suc (length (write_all xs ++ tail))) e v h
        (omega (arith, length-append (write_all xs) tail, length-write_all-ge xs))

  -- A cut of the file: the complete records, and a torn one.
  pub cut_shape :
      (xs : List A) (k : ℕ)
      → All c.Fits xs
      → k < length (write_all xs)
      → (j : ℕ) × (tail : List ℕ) × (e : ReadError) × (j < length xs)
        × (take k (write_all xs) ≡ write_all (take j xs) ++ tail)
        × (c.decode tail ≡ err e)
        × (length (write_all (take j xs)) ≤ k)
        × (k < length (write_all (take (suc j) xs)))
  unfolding write_all
  cut_shape [] k v h = elim h [ ]
  cut_shape (a ∷ xs) k (va, vs) h = elim (dec_lt k (length (c.encode a))) [
    | yes short ↦
        let (e, p) = c.torn a k va short in
        (
          0,
          take k (c.encode a),
          e,
          omega arith,
          take_append_le k (c.encode a) (write_all xs) (omega arith),
          p,
          omega arith,
          omega (arith, length-append (c.encode a) []),
        )
    | no long ↦
        let (j, tail, e, lt, q, p, lo, hi) =
          cut_shape xs (k - length (c.encode a)) vs
            (omega (arith, length-append (c.encode a) (write_all xs))) in
        (
          suc j,
          tail,
          e,
          omega arith,
          take_append_ge k (c.encode a) (write_all xs) (omega arith)
              ∙ ap (λ l. c.encode a ++ l) q
              ∙ sym (append_assoc (c.encode a) (write_all (take j xs)) tail),
          p,
          omega (arith, length-append (c.encode a) (write_all (take j xs))),
          omega (arith, length-append (c.encode a) (write_all (take (suc j) xs))),
        )
  ]

  -- After a crash that keeps any number of bytes, exactly the records that are complete on disk
  -- are read back.
  pub read_all_crash :
      (xs : List A) (k : ℕ)
      → All c.Fits xs
      → k < length (write_all xs)
      → (j : ℕ) × (read_all (take k (write_all xs)) ≡ take j xs)
        × (j < length xs)
        × (length (write_all (take j xs)) ≤ k)
        × (k < length (write_all (take (suc j) xs)))
  read_all_crash xs k v h =
      let (j, tail, e, lt, q, p, lo, hi) = cut_shape xs k v h in
      (
        j,
        ap read_all q ∙ read_all-write_all (take j xs) tail e (All-take c.Fits j xs v) p,
        lt,
        lo,
        hi,
      )

  pub write_all-append : (xs bs : List A) → write_all (xs ++ bs) ≡ write_all xs ++ write_all bs
  unfolding write_all
  write_all-append [] bs = refl
  write_all-append (a ∷ xs) bs =
      ap (λ l. c.encode a ++ l) (write_all-append xs bs)
      ∙ sym (append_assoc (c.encode a) (write_all xs) (write_all bs))
