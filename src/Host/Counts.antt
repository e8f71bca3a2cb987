-- ===== src/Host/Counts.antt =====
-- Lists of fragment numbers, up to their order.
use private_distributed_clou.Prelude.{
  ℕ, zero, suc, ◌+◌, ◌<◌, ◌≡◌, refl, ap, ◌&&◌, Bool, List, [], ◌∷◌, ◌++◌, ltb, leb, if◌then◌else◌,
  arith, count, ℕ_discrete,
}
use private_distributed_clou.ThreadPool.Tally.{tally, tally-middle}

-- A number of a list stands somewhere in it.
split_at_count :
    (k : ℕ) (ks : List ℕ)
    → 0 < count k ks
    → (before : List ℕ) × (after : List ℕ) × (ks ≡ before ++ (k ∷ after))
unfolding count
split_at_count k [] h = absurd (omega arith)
split_at_count k (j ∷ ks) h = elim (ℕ_discrete j k) [
  | yes same ↦ ([], ks, ap (λ x. x ∷ ks) same)
  | no other ↦
      let (before, after, e) = split_at_count k ks (ground (arith, other, h)) in
      (j ∷ before, after, ap (◌∷◌ j) e)
]

count-middle :
    (i k : ℕ) (before after : List ℕ)
    → count i (before ++ (k ∷ after)) ≡ count i (k ∷ (before ++ after))
unfolding count
count-middle i k [] after = refl
count-middle i k (j ∷ before) after = omega (arith, count-middle i k before after)

-- Lists that have each number as often have as many numbers of any kind.
pub tally-count :
    (q : ℕ → Bool) (xs ys : List ℕ) → ((k : ℕ) → count k xs ≡ count k ys) → tally q xs ≡ tally q ys
unfolding count
tally-count q [] [] same = refl
tally-count q [] (y ∷ ys) same = absurd (ground (arith, same y))
tally-count q (x ∷ xs) ys same =
    let (before, after, e) = split_at_count x ys (ground (arith, same x)) in
    let rest =
      tally-count q xs (before ++ after)
        (λ k. omega (arith, same k, ap (count k) e, count-middle k x before after)) in
    omega (arith, rest, ap (tally q) e, tally-middle q before x after)

-- The fragments `i`, `i + 1`, …, of which there are `rounds`.
abbrev pub fragments_from : ℕ → ℕ → List ℕ
fragments_from zero i = []
fragments_from (suc rounds) i = i ∷ fragments_from rounds (i + 1)

pub count-fragments_from :
    (k rounds i : ℕ)
    → count k (fragments_from rounds i) ≡ (if leb i k && ltb k (i + rounds) then 1 else 0)
unfolding count
count-fragments_from k zero i = ground arith
count-fragments_from k (suc rounds) i = ground (arith, count-fragments_from k rounds (i + 1))
