-- ===== src/Waivers/Gate.antt =====
-- waivers/waiver-rules.ts (partialOn, onLine, ageOn): what is known of a person on a line, and ages.
use valle_web_backend.Prelude.{
  ℕ, ◌+◌, ◌*◌, ◌/◌, ◌%◌, ◌≤◌, ◌<◌, ◌≡◌, ◌↔◌, refl, sym, ◌∙◌, ◌-◌, some, Bool, true, false, ◌&&◌,
  ◌||◌, ltb, ◌==◌, arith, Bool-cases, inl, inr,
}
use valle_web_backend.Prelude.Integers.{ℤ, pos}
use valle_web_backend.Day.{Day}
use valle_web_backend.Waivers.{People, GateActivity, OnLine, partial_on, on_line, age_on}

known-on_line :
    (a : GateActivity) (l party : People) (age : ℤ)
    → a.people ≡ some l
    → on_line age l party ≡ OnLine.unknown
    → partial_on a party ≡ true
unfolding partial_on on_line
known-on_line a l party age counts h = rw counts (ground arith)

partial_on-people :
    (a : GateActivity) (l party : People)
    → a.people ≡ some l
    → partial_on a party ≡ (
        (ltb 0 l.adults && ltb l.adults party.adults)
        || (ltb 0 l.kids && ltb l.kids party.kids)
        || ltb party.kids l.kids)
unfolding partial_on
partial_on-people a l party counts = rw counts refl

last_one : (x y z : Bool) → (x || y || z) ≡ true → x ≡ false → y ≡ false → z ≡ true
last_one x y z h p q = ground arith

unknown_age :
    (a : GateActivity) (l party : People)
    → a.people ≡ some l
    → partial_on a party ≡ true
    → (age : ℤ) × (on_line age l party ≡ OnLine.unknown)
unfolding partial_on on_line
unknown_age a l party counts h = elim (Bool-cases (ltb 0 l.adults && ltb l.adults party.adults)) [
  | inl some_adults ↦ (pos 12, ground arith)
  | inr all_adults ↦ elim (Bool-cases (ltb 0 l.kids && ltb l.kids party.kids)) [
    | inl some_kids ↦ (pos 6, ground arith)
    | inr all_kids ↦
        let beyond =
          last_one (ltb 0 l.adults && ltb l.adults party.adults)
            (ltb 0 l.kids && ltb l.kids party.kids) (ltb party.kids l.kids)
            (sym (partial_on-people a l party counts) ∙ h) all_adults all_kids in
        (pos 0, ground arith)
  ]
]

-- Whether a person is on an activity's line is left open for some age exactly when the gate checks the
-- activity once for the party: no activity is both unknown for a person and not checked.
pub partial_on_iff :
    (a : GateActivity) (l party : People)
    → a.people ≡ some l
    → (partial_on a party ≡ true) ↔ ((age : ℤ) × (on_line age l party ≡ OnLine.unknown))
partial_on_iff a l party counts =
    (unknown_age a l party counts, λ (age, h). known-on_line a l party age counts h)

-- A birth date no later than the visit gives the number of whole years between them: that many years
-- after the birth, as dates, the visit is reached, and one year more would pass it.
pub age_on_lem :
    (birth on : Day)
    → birth ≤ on
    → (a : ℕ) × (age_on birth on ≡ pos a)
      × (birth + a * 10_000 ≤ on)
      × (on < birth + (a + 1) * 10_000)
unfolding age_on
age_on_lem birth on past =
    elim (Bool-cases (
      ltb (on / 100 % 100) (birth / 100 % 100)
      || ((on / 100 % 100) == (birth / 100 % 100) && ltb (on % 100) (birth % 100)))) [
        | inl before ↦
            let less : on % 10_000 < birth % 10_000 = ground arith in
            (on / 10_000 - (birth / 10_000 + 1), ground arith, omega arith, omega arith)
        | inr after ↦
            let more : birth % 10_000 ≤ on % 10_000 = ground arith in
            (on / 10_000 - birth / 10_000, ground arith, omega arith, omega arith)
      ]
