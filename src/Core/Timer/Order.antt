-- ===== src/Core/Timer/Order.antt =====
-- The order of the timer queue (core/timermanager.h): `push` and `remove_by_id` keep the pointers in
-- the order of their deadlines, each at most once.
use chungusppc.Common.{
  ℕ, ◌==◌, ==_iff, Option, none, some, ◌≡◌, refl, if◌then◌else◌, Bool, Bool-cases, true, false,
  ◌&&◌, ◌||◌, not, inl, inr, List, [], ◌∷◌, arith,
}
use chungusppc.Core.Timer.{gt, push, make_heap, find_erase, remove_by_id}

-- A pointer is in the queue.
unfoldable pub contains : ℕ → List ℕ → Bool
contains i [] = false
contains i (el ∷ c) = i == el || contains i c

-- All of the queue comes after the timer.
abbrev pub Follows : (ℕ → ℕ) → ℕ → List ℕ → Type 0
Follows d x [] = Unit
Follows d x (el ∷ c) = (gt d el x ≡ true) × Follows d x c

abbrev pub IsOrdered : (ℕ → ℕ) → List ℕ → Type 0
IsOrdered d [] = Unit
IsOrdered d (el ∷ c) = Follows d el c × IsOrdered d c

-- The queue without the first place of a pointer.
unfoldable pub without : ℕ → List ℕ → List ℕ
without id [] = []
without id (el ∷ c) = if el == id then c else el ∷ without id c

module _ (d : ℕ → ℕ) where
  pub gt_trans : (x y z : ℕ) → gt d y x ≡ true → gt d z y ≡ true → gt d z x ≡ true
  unfolding gt
  gt_trans x y z p q = ground arith

  gt_total : (x y : ℕ) → (x == y) ≡ false → gt d x y ≡ false → gt d y x ≡ true
  unfolding gt
  gt_total x y p q = ground arith

  gt_irrefl : (x y : ℕ) → gt d y x ≡ true → (x == y) ≡ false
  unfolding gt
  gt_irrefl x y p = ground arith

  Follows-trans : (x y : ℕ) (c : List ℕ) → gt d y x ≡ true → Follows d y c → Follows d x c
  Follows-trans x y [] p f = tt
  Follows-trans x y (el ∷ c) p (q, f) = (gt_trans x y el p q, Follows-trans x y c p f)

  pub Follows-absent : (x : ℕ) (c : List ℕ) → Follows d x c → contains x c ≡ false
  unfolding contains
  Follows-absent x [] f = refl
  Follows-absent x (el ∷ c) (q, f) = ground (arith, gt_irrefl x el q, Follows-absent x c f)

  push-Follows :
      (x val : ℕ) (c : List ℕ) → gt d val x ≡ true → Follows d x c → Follows d x (push d val c)
  unfolding push
  push-Follows x val [] p f = (p, tt)
  push-Follows x val (el ∷ c) p (q, f) = elim (Bool-cases (gt d el val)) [
    | inl later ↦ rw later (p, (q, f))
    | inr sooner ↦ rw sooner (q, push-Follows x val c p f)
  ]

  pub push-IsOrdered :
      (val : ℕ) (c : List ℕ) → contains val c ≡ false → IsOrdered d c → IsOrdered d (push d val c)
  unfolding push contains
  push-IsOrdered val [] p o = (tt, tt)
  push-IsOrdered val (el ∷ c) p (f, o) = elim (Bool-cases (gt d el val)) [
    | inl later ↦ rw later ((later, Follows-trans val el c later f), (f, o))
    | inr sooner ↦ rw sooner (
      push-Follows el val c (gt_total el val (ground arith) sooner) f,
      push-IsOrdered val c (ground arith) o,
    )
  ]

  pub push-front : (val : ℕ) (c : List ℕ) → Follows d val c → push d val c ≡ val ∷ c
  unfolding push
  push-front val [] f = refl
  push-front val (el ∷ c) (q, f) = rw q

  make_heap_lem : (c : List ℕ) → IsOrdered d c → make_heap d c ≡ c
  unfolding make_heap
  make_heap_lem [] o = refl
  make_heap_lem (el ∷ c) (f, o) = rw (make_heap_lem c o) (push-front el c f)

  pub contains-push :
      (i val : ℕ) (c : List ℕ) → contains i (push d val c) ≡ (i == val || contains i c)
  unfolding push contains
  contains-push i val [] = refl
  contains-push i val (el ∷ c) = ground (arith, contains-push i val c)

  without-Follows : (x id : ℕ) (c : List ℕ) → Follows d x c → Follows d x (without id c)
  unfolding without
  without-Follows x id [] f = tt
  without-Follows x id (el ∷ c) (q, f) = elim (Bool-cases (el == id)) [
    | inl here ↦ rw here f
    | inr there ↦ rw there (q, without-Follows x id c f)
  ]

  pub without-IsOrdered : (id : ℕ) (c : List ℕ) → IsOrdered d c → IsOrdered d (without id c)
  unfolding without
  without-IsOrdered id [] o = tt
  without-IsOrdered id (el ∷ c) (f, o) = elim (Bool-cases (el == id)) [
    | inl here ↦ rw here o
    | inr there ↦ rw there (without-Follows el id c f, without-IsOrdered id c o)
  ]

  pub contains-without :
      (i id : ℕ) (c : List ℕ)
      → IsOrdered d c
      → contains i (without id c) ≡ (not (i == id) && contains i c)
  unfolding without contains
  contains-without i id [] o = ground arith
  contains-without i id (el ∷ c) (f, o) =
      ground (arith, contains-without i id c o, Follows-absent el c f, ==_iff el i)

  find_erase_lem :
      (id : ℕ) (c : List ℕ)
      → find_erase id c ≡ (if contains id c then some (without id c) else none)
  unfolding find_erase contains without
  find_erase_lem id [] = refl
  find_erase_lem id (el ∷ c) = ground (arith, find_erase_lem id c)

  without-absent : (id : ℕ) (c : List ℕ) → contains id c ≡ false → without id c ≡ c
  unfolding contains without
  without-absent id [] p = refl
  without-absent id (el ∷ c) p = ground (arith, without-absent id c)

  rebuilt :
      (erased : Option (List ℕ)) (there : Bool) (c rest : List ℕ)
      → erased ≡ (if there then some rest else none)
      → IsOrdered d rest
      → (elim erased as (λ _. List ℕ) [ none ↦ c | some r ↦ make_heap d r ])
        ≡ (if there then rest else c)
  rebuilt erased true c rest p o = rw p (make_heap_lem rest o)
  rebuilt erased false c rest p o = rw p

  pub remove_lem : (id : ℕ) (c : List ℕ) → IsOrdered d c → remove_by_id d id c ≡ without id c
  unfolding remove_by_id without
  remove_lem id [] o = refl
  remove_lem id (el ∷ c) o = ground (
    arith,
    rebuilt (find_erase id (el ∷ c)) (contains id (el ∷ c)) (el ∷ c) (without id (el ∷ c))
        (find_erase_lem id (el ∷ c)) (without-IsOrdered id (el ∷ c) o),
    without-absent id (el ∷ c),
  )

-- The order is that of the deadlines of the timers in the queue.
Follows-agree :
    (d e : ℕ → ℕ) (x : ℕ) (c : List ℕ)
    → d x ≡ e x
    → ((i : ℕ) → contains i c ≡ true → d i ≡ e i)
    → Follows d x c
    → Follows e x c
unfolding contains gt
Follows-agree d e x [] p agree f = tt
Follows-agree d e x (el ∷ c) p agree (q, f) = (
  rw (← p, ← agree el (ground arith)) q,
  Follows-agree d e x c p (λ i there. agree i (ground arith)) f,
)

pub IsOrdered-agree :
    (d e : ℕ → ℕ) (c : List ℕ)
    → ((i : ℕ) → contains i c ≡ true → d i ≡ e i)
    → IsOrdered d c
    → IsOrdered e c
unfolding contains
IsOrdered-agree d e [] agree o = tt
IsOrdered-agree d e (el ∷ c) agree (f, o) = (
  Follows-agree d e el c (agree el (ground arith)) (λ i there. agree i (ground arith)) f,
  IsOrdered-agree d e c (λ i there. agree i (ground arith)) o,
)
