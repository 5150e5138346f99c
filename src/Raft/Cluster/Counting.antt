-- ===== src/Raft/Cluster/Counting.antt =====
-- Counting the members that pass a test.
use boiler_pulse.Prelude.{
  ℕ, suc, ◌+◌, ◌≤◌, ◌≡◌, refl, ap, Bool, true, false, arith, String, List, [], ◌∷◌, length,
  if◌then◌else◌,
}

unfoldable pub count : (String → Bool) → List String → ℕ
count p [] = 0
count p (x ∷ xs) = let rest = count p xs in if p x then suc rest else rest

-- Where a name stands in a list.
pub data Mem (v : String) : List String → Type 0 where
  first : {xs : List String} → Mem v (v ∷ xs)
  later : {x : String} {xs : List String} → Mem v xs → Mem v (x ∷ xs)

pub count-true : (xs : List String) → count (λ v. true) xs ≡ length xs
unfolding count
count-true [] = refl
count-true (x ∷ xs) = ap suc (count-true xs)

pub count-le :
    (p q : String → Bool) (xs : List String)
    → ((v : String) → Mem v xs → p v ≡ true → q v ≡ true)
    → count p xs ≤ count q xs
unfolding count
count-le p q [] h = omega arith
count-le p q (x ∷ xs) h = ground (arith, h x first, count-le p q xs (λ v m. h v (later m)))

-- One more passes, if one that is there did not pass before.
pub count-lt :
    (p q : String → Bool) (xs : List String) (v : String)
    → Mem v xs
    → ((u : String) → p u ≡ true → q u ≡ true)
    → p v ≡ false
    → q v ≡ true
    → suc (count p xs) ≤ count q xs
unfolding count
count-lt p q [] v m h before after = elim m [ ]
count-lt p q (x ∷ xs) v first h before after =
    ground (arith, before, after, count-le p q xs (λ u m. h u))
count-lt p q (x ∷ xs) v (later m) h before after =
    ground (arith, h x, count-lt p q xs v m h before after)

-- Tests that nothing passes together share the members.
pub count-disjoint :
    (p q : String → Bool) (xs : List String)
    → ((v : String) → p v ≡ true → q v ≡ false)
    → count p xs + count q xs ≤ length xs
unfolding count
count-disjoint p q [] h = omega arith
count-disjoint p q (x ∷ xs) h = ground (arith, h x, count-disjoint p q xs h)
