-- ===== src/Loadgen/Jobs/Pace.antt =====
-- What each step of the load generator's workers keeps (backend/cmd/loadgen/main.go).
use vegait.Prelude.{
  ℕ, suc, ◌+◌, ◌*◌, ◌^◌, ◌<◌, ◌≡◌, refl, ap, Bool, true, List, [], ◌∷◌, ◌++◌, length, length-append,
  arith, if◌then◌else◌,
}
use vegait.Loadgen.Counting.{AddsUp, tally-AddsUp}
use vegait.Loadgen.Jobs.{
  Phase, waiting, firing, finished, Dispatch, Move, send, close, take, answer, leave,
}

-- A sum over the workers, and the three sums that are used: the steps that are left to a worker that gets
-- no more jobs, the requests on their way, and the workers that have left.
abbrev pub sum_of : (Phase → ℕ) → List Phase → ℕ
sum_of f [] = 0
sum_of f (p ∷ ps) = f p + sum_of f ps

pub sum_of-append :
    (f : Phase → ℕ) (ps qs : List Phase) → sum_of f (ps ++ qs) ≡ sum_of f ps + sum_of f qs
sum_of-append f [] qs = omega arith
sum_of-append f (p ∷ ps) qs = omega (arith, sum_of-append f ps qs)

abbrev pub steps_left : Phase → ℕ
steps_left waiting = 1
steps_left firing = 2
steps_left finished = 0

abbrev pub on_their_way : Phase → ℕ
on_their_way firing = 1
on_their_way _ = 0

abbrev pub gone : Phase → ℕ
gone finished = 1
gone _ = 0

abbrev pub open_steps : Bool → ℕ
open_steps closed = if closed then 0 else 1

-- What every step keeps: `done` requests are counted, and the number of steps is known beforehand.
pub record IsPaced (crew total steps : ℕ) (s : Dispatch) : Type 0 where
  pub done : ℕ
  pub counted : AddsUp crew done s.totals
  pub conserved : s.left + s.jobs + sum_of on_their_way s.phases + done ≡ total
  pub staffed : length s.phases ≡ crew
  pub closed_last : s.closed ≡ true → s.left ≡ 0
  pub gone_last : 0 < sum_of gone s.phases → (s.closed ≡ true) × (s.jobs ≡ 0)
  pub paced :
      steps + 3 * s.left + 2 * s.jobs + sum_of steps_left s.phases + open_steps s.closed
      ≡ 3 * total + crew + 1

-- The workers of a step, before and after it.
swapped :
    (f : Phase → ℕ) (before after : List Phase) (p q : Phase)
    → sum_of f (before ++ p ∷ after) + f q ≡ sum_of f (before ++ q ∷ after) + f p
swapped f before after p q =
    omega (arith, sum_of-append f before (p ∷ after), sum_of-append f before (q ∷ after))

length-swapped :
    (before after : List Phase) (p q : Phase)
    → length (before ++ p ∷ after) ≡ length (before ++ q ∷ after)
length-swapped before after p q =
    omega (arith, length-append before (p ∷ after), length-append before (q ∷ after))

-- What a change of one worker does to the three sums, and to their number.
record Changed (before after : List Phase) (p q : Phase) (ps : List Phase) : Type 0 where
  steps :
      sum_of steps_left ps + steps_left q ≡ sum_of steps_left (before ++ q ∷ after) + steps_left p
  way :
      sum_of on_their_way ps + on_their_way q
      ≡ sum_of on_their_way (before ++ q ∷ after) + on_their_way p
  left : sum_of gone ps + gone q ≡ sum_of gone (before ++ q ∷ after) + gone p
  number : length ps ≡ length (before ++ q ∷ after)
  place : length before < length ps

changed :
    (before after : List Phase) (p q : Phase) (ps : List Phase)
    → ps ≡ before ++ p ∷ after
    → Changed before after p q ps
changed before after p q ps at = record {
  steps = rw at (swapped steps_left before after p q);
  way = rw at (swapped on_their_way before after p q);
  left = rw at (swapped gone before after p q);
  number = rw at (length-swapped before after p q);
  place = rw at (omega (arith, length-append before (p ∷ after)));
}

pub Move-IsPaced :
    (crew total : ℕ) {n : ℕ} {s t : Dispatch}
    → total < 2 ^ 63
    → Move s t
    → IsPaced crew total n s
    → IsPaced crew total (suc n) t
Move-IsPaced crew total {n} {s} h (send m e room at) v = rw at (record {
  done = v.done;
  counted = v.counted;
  conserved = omega (arith, v.conserved, e);
  staffed = v.staffed;
  closed_last = λ c. absurd (omega (arith, v.closed_last c, e));
  gone_last = λ g. absurd (omega (arith, v.closed_last (v.gone_last g).0, e));
  paced = omega (arith, v.paced, e);
})
Move-IsPaced crew total {n} {s} h (close e opened at) v = rw at (record {
  done = v.done;
  counted = v.counted;
  conserved = v.conserved;
  staffed = v.staffed;
  closed_last = λ c. e;
  gone_last = λ g. (refl, (v.gone_last g).1);
  paced = omega (arith, v.paced, ap open_steps opened);
})
Move-IsPaced crew total {n} {s} h (take before after j e some_job at) v =
    let c = changed before after waiting firing s.phases e in
    rw at (record {
      done = v.done;
      counted = v.counted;
      conserved = omega (arith, v.conserved, c.way, some_job);
      staffed = omega (arith, v.staffed, c.number);
      closed_last = v.closed_last;
      gone_last = λ g. absurd (omega (arith, (v.gone_last (omega (arith, c.left, g))).1, some_job));
      paced = omega (arith, v.paced, c.steps, some_job);
    })
Move-IsPaced crew total {n} {s} h (answer before after result e at) v =
    let c = changed before after firing waiting s.phases e in
    rw at (record {
      done = suc v.done;
      counted =
          tally-AddsUp crew v.done (length before) result s.totals
            (omega (arith, c.place, v.staffed)) (omega (arith, v.conserved, h)) v.counted;
      conserved = omega (arith, v.conserved, c.way);
      staffed = omega (arith, v.staffed, c.number);
      closed_last = v.closed_last;
      gone_last = λ g. v.gone_last (omega (arith, c.left, g));
      paced = omega (arith, v.paced, c.steps);
    })
Move-IsPaced crew total {n} {s} h (leave before after e no_job shut at) v =
    let c = changed before after waiting finished s.phases e in
    rw at (record {
      done = v.done;
      counted = v.counted;
      conserved = omega (arith, v.conserved, c.way);
      staffed = omega (arith, v.staffed, c.number);
      closed_last = v.closed_last;
      gone_last = λ g. (shut, no_job);
      paced = omega (arith, v.paced, c.steps);
    })
