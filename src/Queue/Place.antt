-- ===== src/Queue/Place.antt =====
-- A place in the queue and the jobs around it (`move_job` of backend/lftpweb/core/queue.py).
use lftpweb.Common.{
  ℕ, ◌≡◌, refl, subst, true, Option, none, some, List, [], ◌∷◌, inl, inr, arith, ◌==◌,
  if◌then◌else◌, All, Bool-cases,
}
use lftpweb.Scheduler.{QueuedJob}
use lftpweb.Scheduler.Priority.{PositionOrder, NotAfter, Sorted, priority_trans, All-NotAfter_trans}
use lftpweb.Queue.Positions.{
  Arithmetic, Spot, Direction, up, down, top, Shift, exhausted, move_to, position_between,
  is_exhausted, shift_between, outward, find_spot, at_position,
}

module _ {Position : Type 0} (floats : Arithmetic Position) where
  open floats use {before, one_less, one_more}

  -- What the moves rely on of floats: their order, and that one less is less and one more is more.
  pub record OrderedFloats : Type 0 where
    pub order : PositionOrder before
    pub less : (x : Position) → before (one_less x) x ≡ true
    pub more : (x : Position) → before x (one_more x) ≡ true

  -- `x` lies strictly between the bounds that are there.
  abbrev pub Above : Option Position → Position → Type 0
  Above none x = Unit
  Above (some lower) x = before lower x ≡ true

  abbrev pub Under : Position → Option Position → Type 0
  Under x none = Unit
  Under x (some upper) = before x upper ≡ true

  move_to_injective : {x y : Position} → ◌≡◌ {A = Shift Position} (move_to x) (move_to y) → x ≡ y
  move_to_injective e = cc

  strict_middle :
      (l u m x : Position)
      → (if is_exhausted floats (some l) (some u) m then exhausted else move_to m) ≡ move_to x
      → (before l x ≡ true) × (before x u ≡ true)
  strict_middle l u m x h = elim (Bool-cases (is_exhausted floats (some l) (some u) m)) [
    | inl e ↦ let q : ◌≡◌ {A = Shift Position} exhausted (move_to x) = rw e at h in cc
    | inr e ↦
        let q : m ≡ x = move_to_injective (rw e at h) in
        (
          subst (λ y. before l y ≡ true) q (ground arith),
          subst (λ y. before y u ≡ true) q (ground arith),
        )
  ]

  pub shift_between-strict :
      (laws : OrderedFloats) (lower upper : Option Position) (x : Position)
      → shift_between floats lower upper ≡ move_to x
      → Above lower x × Under x upper
  unfolding shift_between position_between
  shift_between-strict laws none none x h = (tt, tt)
  shift_between-strict laws none (some u) x h =
      (tt, subst (λ y. before y u ≡ true) (move_to_injective h) (laws.less u))
  shift_between-strict laws (some l) none x h =
      (subst (λ y. before l y ≡ true) (move_to_injective h) (laws.more l), tt)
  shift_between-strict laws (some l) (some u) x h =
      strict_middle l u (position_between floats (some l) (some u)) x h

  module _ {Fraction : Type 0} where
    -- Rows before a job, nearest first.
    abbrev pub Rising : List (QueuedJob Position Fraction) → Type 0
    Rising [] = Unit
    Rising (a ∷ ps) = All (λ b. NotAfter before b a) ps × Rising ps

    -- The rows before a place in the queue, nearest first, and those from it on, in order.
    pub record InQueue (ahead rest : List (QueuedJob Position Fraction)) : Type 0 where
      pub rising : Rising ahead
      pub across : All (λ a. All (NotAfter before a) rest) ahead
      pub sorted : Sorted before rest

    pub across_heads :
        (q : QueuedJob Position Fraction) (qs ps : List (QueuedJob Position Fraction))
        → All (λ a. All (NotAfter before a) (q ∷ qs)) ps
        → All (λ a. NotAfter before a q) ps
    across_heads q qs [] h = tt
    across_heads q qs (a ∷ ps) h = (h.0.0, across_heads q qs ps h.1)

    pub across_tails :
        (q : QueuedJob Position Fraction) (qs ps : List (QueuedJob Position Fraction))
        → All (λ a. All (NotAfter before a) (q ∷ qs)) ps
        → All (λ a. All (NotAfter before a) qs) ps
    across_tails q qs [] h = tt
    across_tails q qs (a ∷ ps) h = (h.0.1, across_tails q qs ps h.1)

    some_spot : {a b : Spot Position Fraction} → some a ≡ some b → a ≡ b
    some_spot e = cc

    pub find_spot-InQueue :
        (id : ℕ) (ahead qs : List (QueuedJob Position Fraction)) (spot : Spot Position Fraction)
        → InQueue ahead qs
        → find_spot floats id ahead qs ≡ some spot
        → InQueue spot.ahead (spot.here ∷ spot.behind)
    unfolding find_spot
    find_spot-InQueue id ahead [] spot k h = cc
    find_spot-InQueue id ahead (q ∷ qs) spot k h = elim (Bool-cases (q.id == id)) [
      | inl e ↦
          let same : record { ahead = ahead; here = q; behind = qs } ≡ spot =
            some_spot (rw e at h) in
          subst (λ s. InQueue s.ahead (s.here ∷ s.behind)) same k
      | inr e ↦
          find_spot-InQueue id (q ∷ ahead) qs spot
            (record {
              rising = (across_heads q qs ahead k.across, k.rising);
              across = (k.sorted.0, across_tails q qs ahead k.across);
              sorted = k.sorted.1;
            })
            (rw e at h)
    ]

    -- The place after a move by one: the neighbour is on the other side.
    unfoldable pub passed_up :
        List (QueuedJob Position Fraction) → Spot Position Fraction → Spot Position Fraction
    passed_up [] spot = spot
    passed_up (n ∷ rest) spot = record { ahead = rest; here = spot.here; behind = n ∷ spot.behind }

    unfoldable pub passed_down :
        List (QueuedJob Position Fraction) → Spot Position Fraction → Spot Position Fraction
    passed_down [] spot = spot
    passed_down (n ∷ rest) spot = record { ahead = n ∷ spot.ahead; here = spot.here; behind = rest }

    unfoldable pub passed : Direction → Spot Position Fraction → Spot Position Fraction
    unfolding passed_up passed_down
    passed up spot = passed_up spot.ahead spot
    passed down spot = passed_down spot.behind spot
    passed top spot = spot

    -- With position `x`, the job comes after all the rows ahead and before all those behind.
    pub record Placed (spot : Spot Position Fraction) (x : Position) : Type 0 where
      pub after_ahead : All (λ q. NotAfter before q (at_position floats x spot.here)) spot.ahead
      pub before_behind : All (NotAfter before (at_position floats x spot.here)) spot.behind

    module _ (laws : OrderedFloats) where
      pub All-NotAfter_to :
          (b c : QueuedJob Position Fraction) (ps : List (QueuedJob Position Fraction))
          → All (λ a. NotAfter before a b) ps
          → NotAfter before b c
          → All (λ a. NotAfter before a c) ps
      All-NotAfter_to b c [] h k = tt
      All-NotAfter_to b c (a ∷ ps) h k =
          (priority_trans before laws.order a b c h.0 k, All-NotAfter_to b c ps h.1 k)

      pub lower_NotAfter :
          (q t : QueuedJob Position Fraction) (x : Position)
          → before q.queue_position x ≡ true
          → NotAfter before q (at_position floats x t)
      lower_NotAfter q t x h = rw h refl

      pub upper_NotAfter :
          (q t : QueuedJob Position Fraction) (x : Position)
          → before x q.queue_position ≡ true
          → NotAfter before (at_position floats x t) q
      upper_NotAfter q t x h = rw h refl

      pub Above-ahead :
          (t n : QueuedJob Position Fraction) (x : Position)
          (rest : List (QueuedJob Position Fraction))
          → Rising (n ∷ rest)
          → Above (outward floats rest) x
          → All (λ q. NotAfter before q (at_position floats x t)) rest
      Above-ahead t n x [] h k = tt
      Above-ahead t n x (l ∷ ls) h k = (
        lower_NotAfter l t x k,
        All-NotAfter_to l (at_position floats x t) ls h.1.0 (lower_NotAfter l t x k),
      )

      pub Under-behind :
          (t : QueuedJob Position Fraction) (x : Position)
          (rest : List (QueuedJob Position Fraction))
          → Sorted before rest
          → Under x (outward floats rest)
          → All (NotAfter before (at_position floats x t)) rest
      Under-behind t x [] h k = tt
      Under-behind t x (u ∷ us) h k = (
        upper_NotAfter u t x k,
        All-NotAfter_trans before laws.order (at_position floats x t) u us (upper_NotAfter u t x k)
            h.0,
      )
