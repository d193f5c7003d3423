-- ===== src/Core/Timer/Due.antt =====
-- How many timers of the queue have expired (core/timermanager.cpp): what `push` and `remove_by_id` do to
-- this number.
use chungusppc.Common.{
  ℕ, ◌+◌, leb, ◌==◌, ==_iff, ◌≡◌, ◌≤◌, refl, to_nat, Bool-cases, true, inl, inr, List, [], ◌∷◌,
  arith,
}
use chungusppc.Core.Timer.{gt, push}
use chungusppc.Core.Timer.Order.{contains, Follows, IsOrdered, without}

unfoldable pub due : (ℕ → ℕ) → ℕ → List ℕ → ℕ
due d time_now [] = 0
due d time_now (el ∷ c) = to_nat (leb (d el) time_now) + due d time_now c

module _ (d : ℕ → ℕ) (time_now : ℕ) where
  pub due-push :
      (val : ℕ) (c : List ℕ)
      → due d time_now (push d val c) ≡ to_nat (leb (d val) time_now) + due d time_now c
  unfolding due push
  due-push val [] = refl
  due-push val (el ∷ c) = elim (Bool-cases (gt d el val)) [
    | inl later ↦ rw later refl
    | inr sooner ↦ rw sooner (omega (arith, due-push val c))
  ]

  pub due-without :
      (id : ℕ) (c : List ℕ)
      → contains id c ≡ true
      → due d time_now c ≡ to_nat (leb (d id) time_now) + due d time_now (without id c)
  unfolding due without contains
  due-without id [] h = ground arith
  due-without id (el ∷ c) h = elim (Bool-cases (el == id)) [
    | inl here ↦ let e : el ≡ id = (==_iff el id).0 here in rw here (rw e refl)
    | inr there ↦ rw there (omega (arith, due-without id c (ground arith)))
  ]

  pub due-without_le : (id : ℕ) (c : List ℕ) → due d time_now (without id c) ≤ due d time_now c
  unfolding due without
  due-without_le id [] = omega arith
  due-without_le id (el ∷ c) = elim (Bool-cases (el == id)) [
    | inl here ↦ rw here (omega arith)
    | inr there ↦ rw there (omega (arith, due-without_le id c))
  ]

  pub due-agree :
      (e : ℕ → ℕ) (c : List ℕ)
      → ((i : ℕ) → contains i c ≡ true → d i ≡ e i)
      → due d time_now c ≡ due e time_now c
  unfolding due contains
  due-agree e [] agree = refl
  due-agree e (el ∷ c) agree =
      rw (agree el (ground arith), due-agree e c (λ i there. agree i (ground arith))) refl

module _ (d : ℕ → ℕ) where
  Follows-le : (x : ℕ) (c : List ℕ) → Follows d x c → (i : ℕ) → contains i c ≡ true → d x ≤ d i
  unfolding contains gt
  Follows-le x [] f i h = absurd cc
  Follows-le x (el ∷ c) (q, f) i h = elim (Bool-cases (i == el)) [
    | inl here ↦ let e : i ≡ el = (==_iff i el).0 here in rw e (ground arith)
    | inr there ↦ Follows-le x c f i (rw there at h)
  ]

  -- The first timer of the queue is the earliest.
  pub top_earliest :
      (top : ℕ) (c : List ℕ)
      → IsOrdered d (top ∷ c)
      → (i : ℕ) → contains i (top ∷ c) ≡ true
      → d top ≤ d i
  unfolding contains
  top_earliest top c (f, o) i h = elim (Bool-cases (i == top)) [
    | inl here ↦ let e : i ≡ top = (==_iff i top).0 here in rw e (omega arith)
    | inr there ↦ Follows-le top c f i (rw there at h)
  ]
