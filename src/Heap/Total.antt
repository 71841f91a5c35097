-- ===== src/Heap/Total.antt =====
-- Sums over the cells of a heap, and how a write at one address changes them.
use luarc.Prelude.{ℕ, zero, suc, ◌+◌, ◌≡◌, refl, ◌≢◌, Option, none, [], ◌∷◌, length, arith}
use luarc.Object.{Ptr, GcObject}
use luarc.Heap.{Heap, cell}

abbrev pub Weight : Type 0
Weight = Ptr → Option GcObject → ℕ

unfoldable pub total : Weight → Heap → ℕ
total g [] = 0
total g (c ∷ h) = g 0 c + total (λ p. g (suc p)) h

pub total_ext :
    (g g' : Weight) (h h' : Heap)
    → length h ≡ length h'
    → ((p : Ptr) → g p (cell h p) ≡ g' p (cell h' p))
    → total g h ≡ total g' h'
unfolding total
total_ext g g' [] [] e same = refl
total_ext g g' [] (c ∷ h') e same = absurd (omega arith)
total_ext g g' (c ∷ h) [] e same = absurd (omega arith)
total_ext g g' (c ∷ h) (c' ∷ h') e same = omega (
  arith,
  same 0,
  total_ext (λ p. g (suc p)) (λ p. g' (suc p)) h h' (omega arith) (λ p. same (suc p)),
)

-- Two heaps, or two weights, that differ at one address only.
pub total_change :
    (g g' : Weight) (h h' : Heap) (p : Ptr)
    → length h ≡ length h'
    → ((q : Ptr) → q ≢ p → g q (cell h q) ≡ g' q (cell h' q))
    → g p none ≡ 0
    → g' p none ≡ 0
    → total g' h' + g p (cell h p) ≡ total g h + g' p (cell h' p)
unfolding total
total_change g g' [] [] p e same z z' = omega arith
total_change g g' [] (c ∷ h') p e same z z' = absurd (omega arith)
total_change g g' (c ∷ h) [] p e same z z' = absurd (omega arith)
total_change g g' (c ∷ h) (c' ∷ h') zero e same z z' = omega (
  arith,
  total_ext (λ p. g (suc p)) (λ p. g' (suc p)) h h' (omega arith) (λ q. same (suc q) (omega arith)),
)
total_change g g' (c ∷ h) (c' ∷ h') (suc p) e same z z' = omega (
  arith,
  same 0 (omega arith),
  total_change (λ q. g (suc q)) (λ q. g' (suc q)) h h' p (omega arith)
      (λ q ne. same (suc q) (omega arith)) z z',
)
