-- ===== src/CmTime/Spacing.antt =====
-- When the timer is due.
use jklibs.Common.{
  ℕ, ◌+◌, ◌-◌, ◌%◌, ◌^◌, ◌≤◌, ◌<◌, ◌≡◌, refl, true, List, [], ◌∷◌, arith, ltb, if◌then◌else◌, ◌⊎◌,
  inl, inr, Bool-cases,
}
use jklibs.Common.Int.{pos, eqb_ℤ}
use jklibs.CmTime.{TimeWait, timewait_check}

-- A running timer, asked at a time that is not before its last one, is due exactly if more than
-- its duration has passed, and then counts from now on; else it stays as it is.
pub timewait_check-cases :
    (tw : TimeWait) (now : ℕ)
    → tw.started ≡ true
    → tw.last_time ≤ now
    → now < 2 ^ 64
    → ((timewait_check tw now ≡ (record tw { last_time = now }, pos 1))
        × (tw.last_time + tw.duration < now))
      ⊎ ((timewait_check tw now ≡ (tw, pos 0)) × (now ≤ tw.last_time + tw.duration))
unfolding timewait_check
timewait_check-cases tw now s a b =
    let passed : (now + 2 ^ 64 - tw.last_time) % 2 ^ 64 ≡ now - tw.last_time = omega arith in
    elim (Bool-cases (ltb tw.duration (now - tw.last_time))) [
      | inl e ↦ inl (rw (s, passed, e) refl, ground arith)
      | inr e ↦ inr (rw (s, passed, e) refl, ground arith)
    ]

-- The times at which the timer is found due when it is asked at the given times.
abbrev pub due_times : TimeWait → List ℕ → List ℕ
due_times tw [] = []
due_times tw (now ∷ times) =
    let (after, r) = timewait_check tw now in
    if eqb_ℤ r (pos 1) then now ∷ due_times after times else due_times after times

-- Each time lies within 64 bits and not before the one before it.
abbrev pub Ordered : ℕ → List ℕ → Type 0
Ordered before [] = Unit {0}
Ordered before (now ∷ times) = ((before ≤ now) × (now < 2 ^ 64)) × Ordered now times

-- Each time lies more than `gap` behind the one before it.
abbrev pub Spaced : ℕ → ℕ → List ℕ → Type 0
Spaced gap before [] = Unit {0}
Spaced gap before (now ∷ times) = (before + gap < now) × Spaced gap now times

Ordered-from : (a b : ℕ) (times : List ℕ) → a ≤ b → Ordered b times → Ordered a times
Ordered-from a b [] h o = tt
Ordered-from a b (t ∷ times) h o = ((omega arith, omega arith), o.1)

-- Whenever a running timer is asked, it is due at times that lie more than its duration apart,
-- and behind its last time.
pub due_times-Spaced :
    (tw : TimeWait) (times : List ℕ)
    → tw.started ≡ true
    → Ordered tw.last_time times
    → Spaced tw.duration tw.last_time (due_times tw times)
due_times-Spaced tw [] s o = tt
due_times-Spaced tw (now ∷ times) s o = elim (timewait_check-cases tw now s (o.0.0) (o.0.1)) [
  | inl (e, late) ↦ rw e (late, due_times-Spaced (record tw { last_time = now }) times s (o.1))
  | inr (e, early) ↦
      rw e (due_times-Spaced tw times s (Ordered-from tw.last_time now times (o.0.0) (o.1)))
]
