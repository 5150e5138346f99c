-- ===== src/Bytes.antt =====
-- Byte strings: big-endian integers (encoding/binary), and reading from the front of an input
-- (io.ReadFull, binary.Read) with the errors that Go reports.
pub mod Frame
pub mod LogCodec
use boiler_pulse.Prelude.{
  ℕ, zero, suc, ◌+◌, ◌*◌, ◌/◌, ◌%◌, ◌^◌, ◌≤◌, ◌<◌, ◌≡◌, refl, sym, ap, ◌∙◌, subst, Bool, true,
  false, List, [], ◌∷◌, ◌++◌, arith, leb, ◌==◌, ◌&&◌, ◌↔◌, if◌then◌else◌, length, take, drop,
  length-append, take-length_append, drop-length_append, le→leb, append-nil,
}
use native.Mathlib.Nat.{pow-suc}

-- `eof`: nothing was left to read. `corrupt` is a checksum or a payload that does not fit.
pub data ReadError : Type 0 where
  eof unexpected_eof corrupt : ReadError

pub data Result {ℓ} (A : Type ℓ) : Type ℓ where
  ok : A → Result A
  err : ReadError → Result A

infixl 5 ◌>>=◌
abbrev pub ◌>>=◌ {ℓ κ} : {A : Type ℓ} {B : Type κ} → Result A → (A → Result B) → Result B
ok a >>= f = f a
err e >>= f = err e

-- A step whose error is reported as `e`, whatever it was.
abbrev pub or_fail {ℓ} : {A : Type ℓ} → ReadError → Result A → Result A
or_fail e (ok a) = ok a
or_fail e (err _) = err e

-- `binary.BigEndian.AppendUint16/32/64`: the low `w` bytes of `x`, the highest first.
unfoldable pub be : ℕ → ℕ → List ℕ
be zero x = []
be (suc w) x = be w (x / 256) ++ x % 256 ∷ []

abbrev from_be_loop : ℕ → List ℕ → ℕ
from_be_loop acc [] = acc
from_be_loop acc (b ∷ bs) = from_be_loop (acc * 256 + b) bs

-- `binary.BigEndian.Uint16/32/64`.
unfoldable pub from_be : List ℕ → ℕ
from_be bs = from_be_loop 0 bs

pub length-be : (w x : ℕ) → length (be w x) ≡ w
unfolding be
length-be zero x = refl
length-be (suc w) x =
    omega (arith, length-append (be w (x / 256)) (x % 256 ∷ []), length-be w (x / 256))

from_be_loop-append :
    (acc : ℕ) (bs : List ℕ) (b : ℕ)
    → from_be_loop acc (bs ++ b ∷ []) ≡ from_be_loop acc bs * 256 + b
from_be_loop-append acc [] b = refl
from_be_loop-append acc (x ∷ xs) b = from_be_loop-append (acc * 256 + x) xs b

pub from_be-be : (w x : ℕ) → x < 256 ^ w → from_be (be w x) ≡ x
unfolding from_be be
from_be-be zero x h = omega arith
from_be-be (suc w) x h =
    from_be_loop-append 0 (be w (x / 256)) (x % 256)
    ∙ omega (arith, from_be-be w (x / 256) (omega (arith, pow-suc 256 w)))

-- `io.ReadFull(r, buf)` with `k` bytes in `buf`.
unfoldable pub read_full : ℕ → List ℕ → Result (List ℕ × List ℕ)
read_full k [] = if leb k 0 then ok ([], []) else err eof
read_full k (b ∷ bs) =
    if leb k (length (b ∷ bs)) then ok (take k (b ∷ bs), drop k (b ∷ bs)) else err unexpected_eof

-- `binary.Read` of an unsigned integer of `w` bytes.
unfoldable pub read_uint : ℕ → List ℕ → Result (ℕ × List ℕ)
unfolding read_full
read_uint w input = do (bs, rest) ← read_full w input; ok (from_be bs, rest)

pub read_full_enough :
    (k : ℕ) (bs : List ℕ) → k ≤ length bs → read_full k bs ≡ ok (take k bs, drop k bs)
unfolding read_full
read_full_enough zero [] h = refl
read_full_enough (suc k) [] h = absurd (omega arith)
read_full_enough k (b ∷ bs) h = rw (le→leb k (length (b ∷ bs)) h)

-- A read that is longer than the input fails, one way or the other.
pub read_full_short :
    (k : ℕ) (bs : List ℕ) → length bs < k → (e : ReadError) × (read_full k bs ≡ err e)
unfolding read_full
read_full_short zero [] h = absurd (omega arith)
read_full_short (suc k) [] h = (eof, ground arith)
read_full_short k (b ∷ bs) h = (unexpected_eof, ground arith)

pub read_full-append :
    (k : ℕ) (xs rest : List ℕ) → length xs ≡ k → read_full k (xs ++ rest) ≡ ok (xs, rest)
read_full-append k xs rest h =
    read_full_enough k (xs ++ rest) (omega (arith, length-append xs rest))
    ∙ ap (λ j. ok (take j (xs ++ rest), drop j (xs ++ rest))) (sym h)
    ∙ ap (λ l. ok (l, drop (length xs) (xs ++ rest))) (take-length_append xs rest)
    ∙ ap (λ l. ok (xs, l)) (drop-length_append xs rest)

pub read_full_all : (xs : List ℕ) → read_full (length xs) xs ≡ ok (xs, [])
read_full_all xs =
    ap (read_full (length xs)) (sym (append-nil xs)) ∙ read_full-append (length xs) xs [] refl

pub read_uint-be :
    (w x : ℕ) (rest : List ℕ) → x < 256 ^ w → read_uint w (be w x ++ rest) ≡ ok (x, rest)
unfolding read_uint
read_uint-be w x rest h =
    ap (λ r. r >>= λ p. ok (from_be p.0, p.1)) (read_full-append w (be w x) rest (length-be w x))
    ∙ ap (λ v. ok (v, rest)) (from_be-be w x h)

-- Go's `==` on byte strings.
unfoldable pub bytes_eq : List ℕ → List ℕ → Bool
bytes_eq [] [] = true
bytes_eq (x ∷ xs) (y ∷ ys) = x == y && bytes_eq xs ys
bytes_eq _ _ = false

pub bytes_eq_sound : (xs ys : List ℕ) → bytes_eq xs ys ≡ true → xs ≡ ys
unfolding bytes_eq
bytes_eq_sound [] [] h = refl
bytes_eq_sound [] (y ∷ ys) h = cc
bytes_eq_sound (x ∷ xs) [] h = cc
bytes_eq_sound (x ∷ xs) (y ∷ ys) h = ground (arith, bytes_eq_sound xs ys)

bytes_eq_refl : (xs : List ℕ) → bytes_eq xs xs ≡ true
unfolding bytes_eq
bytes_eq_refl [] = refl
bytes_eq_refl (x ∷ xs) = ground (arith, bytes_eq_refl xs)

pub bytes_eq_iff : (xs ys : List ℕ) → (bytes_eq xs ys ≡ true) ↔ (xs ≡ ys)
bytes_eq_iff xs ys =
    (bytes_eq_sound xs ys, λ e. subst (λ l. bytes_eq xs l ≡ true) e (bytes_eq_refl xs))
