-- ===== src/Run/Clock/Ticks.antt =====
-- Ticks of `nextTick` from one start to the next.
use tinc_boot.Prelude.{
  ℕ, zero, suc, ◌-◌, ◌^◌, ◌≡◌, ◌≢◌, refl, ap, Bool, true, false, [], ◌∷◌, Option, none, some, arith,
  All, ◌==◌, Bool-cases, inl, inr, Option-cases, if◌then◌else◌,
}
use tinc_boot.Prelude.Int.{ℤ, pos, negsuc, ◌<ℤ◌}
use tinc_boot.Text.{Text, codes}
use tinc_boot.Text.Strings.{trim_space, is_space}
use tinc_boot.Text.Strings.Trim.{IsTrimmed-of_spaceless, trim_space_of_IsTrimmed}
use tinc_boot.Numbers.{
  is_digit, parse_int, format_int, format_uint, format_uint-IsDigits, Fits64, parse_int-format_int,
  parse_int-Fits64,
}
use tinc_boot.Daemon.Disk.{Outcome, whole, not_opened, cut, cut_in_flush, write_file}
use tinc_boot.Run.Clock.{increment, read_tick, Tick, ticked, read_clock, write_failed, next_tick}

digit-space : (c : ℕ) → is_digit c ≡ true → is_space c ≡ false
unfolding is_digit is_space
digit-space c h = ground arith

digits-space : (s : Text) → All (λ c. is_digit c ≡ true) s → All (λ c. is_space c ≡ false) s
digits-space [] h = tt
digits-space (c ∷ s) h = (digit-space c h.0, digits-space s h.1)

format_int-space : (z : ℤ) → All (λ c. is_space c ≡ false) (format_int z)
unfolding format_int
format_int-space (pos n) = digits-space (format_uint n) (format_uint-IsDigits n).1
format_int-space (negsuc n) =
    (unfold is_space in refl, digits-space (format_uint (suc n)) (format_uint-IsDigits (suc n)).1)

read_tick-format_int : (z : ℤ) → Fits64 z → read_tick (format_int z) ≡ z
unfolding read_tick
read_tick-format_int z h =
    rw
      (
        trim_space_of_IsTrimmed (format_int z)
            (IsTrimmed-of_spaceless (format_int z) (format_int-space z)),
        read_tick,
      )
      (rw (parse_int-format_int z h))

pub increment-grows : (z : ℤ) → z ≢ pos (2 ^ 63 - 1) → z <ℤ increment z
unfolding increment
increment-grows (pos n) h = grind (arith, ap pos)
increment-grows (negsuc zero) h = omega arith
increment-grows (negsuc (suc n)) h = omega arith

increment-Fits64 : (z : ℤ) → Fits64 z → Fits64 (increment z)
unfolding increment
increment-Fits64 (pos n) h = elim (Bool-cases (n == 2 ^ 63 - 1)) [
  | inl e ↦ rw e (omega arith)
  | inr e ↦ rw e (ground arith)
]
increment-Fits64 (negsuc zero) h = omega arith
increment-Fits64 (negsuc (suc n)) h = omega arith

read_tick-Fits64 : (content : Text) → Fits64 (read_tick content)
unfolding read_tick
read_tick-Fits64 content = elim (Option-cases (parse_int (trim_space content))) [
  | inl e ↦ rw (e, read_tick, Fits64) (omega arith)
  | inr (z, e) ↦ rw (e, read_tick, Fits64) (parse_int-Fits64 (trim_space content) z e)
]

-- What a counted tick says of the clock that was kept.
abbrev pub Kept : Option Text × Tick → Type 0
Kept (clock, ticked z) = (clock ≡ some (format_int z)) × Fits64 z
Kept (clock, read_clock) = Unit
Kept (clock, write_failed) = Unit

written-Kept :
    (outcome : Outcome) (old : Option Text) (z : ℤ)
    → Fits64 z
    → Kept (
      (write_file outcome (format_int z) old).0,
      if (write_file outcome (format_int z) old).1 then ticked z else write_failed,
    )
unfolding write_file
written-Kept whole old z h = (refl, h)
written-Kept not_opened old z h = tt
written-Kept (cut part) old z h = tt
written-Kept (cut_in_flush part) old z h = tt

pub next_tick-Kept :
    (denied : Bool) (outcome : Outcome) (clock : Option Text)
    → Kept (next_tick denied outcome clock)
unfolding next_tick
next_tick-Kept denied outcome none =
    written-Kept outcome none (increment (read_tick (codes "0")))
      (increment-Fits64 (read_tick (codes "0")) (read_tick-Fits64 (codes "0")))
next_tick-Kept true outcome (some content) = tt
next_tick-Kept false outcome (some content) =
    written-Kept outcome (some content) (increment (read_tick content))
      (increment-Fits64 (read_tick content) (read_tick-Fits64 content))

-- A tick counted from the clock that holds `z` is the next one.
pub next_tick-increment :
    (denied : Bool) (outcome : Outcome) (z w : ℤ) (clock : Option Text)
    → Fits64 z
    → next_tick denied outcome (some (format_int z)) ≡ (clock, ticked w)
    → w ≡ increment z
unfolding next_tick write_file
next_tick-increment true outcome z w clock f h = absurd (ground arith)
next_tick-increment false whole z w clock f h = ground (arith, read_tick-format_int z f)
next_tick-increment false not_opened z w clock f h = absurd (ground arith)
next_tick-increment false (cut part) z w clock f h = absurd (ground arith)
next_tick-increment false (cut_in_flush part) z w clock f h = absurd (ground arith)

-- After a start at tick `z` whose clock was kept, the next start that can read and write its clock is
-- at the next tick, keeps that one, and the tick is greater, unless `z` is the greatest int64: then the
-- tick is the least one.
pub next_tick_lem :
    (z : ℤ)
    → Fits64 z
    → (next_tick false whole (some (format_int z))
        ≡ (some (format_int (increment z)), ticked (increment z)))
      × Fits64 (increment z)
      × (z ≢ pos (2 ^ 63 - 1) → z <ℤ increment z)
      × (increment (pos (2 ^ 63 - 1)) ≡ negsuc (2 ^ 63 - 1))
unfolding next_tick write_file
next_tick_lem z h = (
  rw (read_tick-format_int z h),
  increment-Fits64 z h,
  increment-grows z,
  unfold increment in refl,
)
