-- ===== src/Run/Loop/Pacing.antt =====
-- CPU/run.cpp: the two loops of `run_spim` against one loop with a counter.
use spim_curses.Base.{
  ℕ, zero, suc, ◌+◌, ◌-◌, ◌≤◌, ◌<◌, min, ◌≡◌, refl, sym, ◌∙◌, ap, arith, Bool, true, leb, Option,
  none, some, inl, inr, Bool-cases,
}
use spim_curses.Machine.{
  Machine, Outcome, M, ◌>>=◌, ◌>>◌, bind, done, run_error, fatal_error, too_deep, pure,
}
use spim_curses.Run.Loop.{run_steps, run_chunks, between_steps, or_leave}

bind_ext :
    {A B : Type 0} {f g : A → M B} (o : Outcome A)
    → ((x : A) (m : Machine) → f x m ≡ g x m)
    → bind o f ≡ bind o g
bind_ext (done x m) h = h x m
bind_ext (run_error e m) h = refl
bind_ext fatal_error h = refl
bind_ext too_deep h = refl

-- One loop: `count` steps are left until the devices and interrupts are looked at again.
module _ (round : M (Option Bool)) (interval : ℕ) where
  unfoldable pub paced : ℕ → ℕ → M Bool
  paced zero count = pure true
  paced (suc left) zero = do between_steps; r ← round; or_leave (paced left (interval - 1)) r
  paced (suc left) (suc count) = do r ← round; or_leave (paced left count) r

or_leave_ext :
    (k k' : M Bool) (r : Option Bool) (m : Machine) → k m ≡ k' m → or_leave k r m ≡ or_leave k' r m
or_leave_ext k k' (some b) m h = refl
or_leave_ext k k' none m h = h

module _ (round : M (Option Bool)) (interval : ℕ) where
  -- What is left when the steps up to the next look at the devices have been taken.
  abbrev rest_of : ℕ → Option Bool → M Bool
  rest_of left = or_leave (paced round interval left 0)

  bind_steps :
      (n left : ℕ) (k : M Bool) (o : Outcome (Option Bool))
      → ((m' : Machine) → k m' ≡ bind (run_steps round n m') (rest_of left))
      → bind o (or_leave k)
        ≡ bind
            (bind o (λ r. elim r [ some b ↦ pure (some b) | none ↦ run_steps round n ]))
            (rest_of left)
  bind_steps n left k (done (some b) m') ih = refl
  bind_steps n left k (done none m') ih = ih m'
  bind_steps n left k (run_error e m') ih = refl
  bind_steps n left k fatal_error ih = refl
  bind_steps n left k too_deep ih = refl

  paced-run_steps :
      (n total left : ℕ) (m : Machine)
      → total ≡ n + left
      → paced round interval total n m ≡ bind (run_steps round n m) (rest_of left)
  unfolding paced run_steps
  paced-run_steps zero total left m h =
      ap (λ t. paced round interval t 0 m) {x = total} {y = left} (omega (arith, h))
  paced-run_steps (suc n) zero left m h = absurd (omega (arith, h))
  paced-run_steps (suc n) (suc total) left m h =
      bind_steps n left _ (round m) λ m'. paced-run_steps n total left m' (omega (arith, h))

  -- A counter that outlives the steps does not matter.
  paced-outlived :
      (left c c' : ℕ) (m : Machine)
      → left ≤ c
      → left ≤ c'
      → paced round interval left c m ≡ paced round interval left c' m
  unfolding paced
  paced-outlived zero c c' m p q = refl
  paced-outlived (suc left) zero c' m p q = absurd (omega arith)
  paced-outlived (suc left) (suc c) zero m p q = absurd (omega arith)
  paced-outlived (suc left) (suc c) (suc c') m p q =
      bind_ext (round m)
        λ r m'. or_leave_ext _ _ r m' (paced-outlived left c c' m' (omega arith) (omega arith))

-- After the devices: a chunk of steps, and the counter set anew.
chunk-paced :
    (round : M (Option Bool)) (next left : ℕ) (m : Machine)
    → 0 < next
    → bind (run_steps round (min next left) m) (rest_of round next (left - min next left))
      ≡ paced round next left next m
chunk-paced round next left m h = elim (Bool-cases (leb next left)) [
  | inl p ↦
      sym (paced-run_steps round next (min next left) left (left - min next left) m (omega arith))
      ∙ ap (λ c. paced round next left c m) {x = min next left} {y = next} (ground (arith, p))
  | inr p ↦
      sym (paced-run_steps round next (min next left) left (left - min next left) m (omega arith))
      ∙ paced-outlived round next left (min next left) next m (ground (arith, p))
          (ground (arith, p))
]

-- The two loops of `run_spim` are one loop that takes the steps one by one and looks at the
-- devices and interrupts before the first step and after each `next` steps, where `next` is
-- positive and the fuel is at least the number of steps.
pub run_chunks-paced :
    (round : M (Option Bool)) (fuel next left : ℕ) (m : Machine)
    → 0 < next
    → left ≤ fuel
    → run_chunks round fuel next left m ≡ paced round next left 0 m
unfolding run_chunks paced
run_chunks-paced round zero next zero m h p = refl
run_chunks-paced round zero next (suc left) m h p = absurd (omega arith)
run_chunks-paced round (suc fuel) next zero m h p = refl
run_chunks-paced round (suc fuel) zero (suc left) m h p = absurd (omega arith)
run_chunks-paced round (suc fuel) (suc k) (suc left) m h p = bind_ext (between_steps m) λ _ m1.
    bind_ext (run_steps round (min (suc k) (suc left)) m1) (λ r m2.
      or_leave_ext _ _ r m2 (
        run_chunks-paced round fuel (suc k) (suc left - min (suc k) (suc left)) m2 h (omega arith)))
    ∙ chunk-paced round (suc k) (suc left) m1 h
    ∙ bind_ext (round m1) λ r m'.
      or_leave_ext _ _ r m'
        (ap (λ c. paced round (suc k) left c m') {x = k} {y = suc k - 1} (omega arith))
