-- ===== src/Waivers/Signing.antt =====
-- waivers/waiver-rules.ts (waiverRequiredCount): enough signatures, and not too many.
use valle_web_backend.Prelude.{
  ℕ, ◌+◌, ◌≤◌, ◌≡◌, String, Option, List, [], ◌∷◌, Bool, true, false, or_zero, if◌then◌else◌, min,
  max, All, All-mono, arith, Bool-cases, inl, inr,
}
use valle_web_backend.Waivers.{
  WaiverLine, WaiverParty, needs_waiver, people_on, largest_line, waiver_required_count,
}

if_true : {X : Type 0} (b : Bool) → b ≡ true → (if b then X else Unit {0}) → X
if_true true h x = x
if_true false h x = cc h

module _ (acts : List String) (party : WaiverParty)
    (product_acts : String → Option (List String)) where
  -- A count that is enough for a line.
  abbrev pub Covers : ℕ → WaiverLine → Type 0
  Covers n l =
      if needs_waiver acts product_acts l
      then min (people_on party l) (party.adults + party.kids) ≤ n
      else Unit

  largest-le : (lines : List WaiverLine) (n : ℕ) → n ≤ largest_line lines acts party product_acts n
  unfolding largest_line
  largest-le [] n = omega arith
  largest-le (l ∷ lines) n = elim (Bool-cases (needs_waiver acts product_acts l)) [
    | inl needs ↦ rw needs (omega (arith, largest-le lines (max n (people_on party l))))
    | inr free ↦ rw free (largest-le lines n)
  ]

  -- The count after a line covers it.
  covered_line :
      (l : WaiverLine) (lines : List WaiverLine) (n : ℕ)
      → Covers (largest_line (l ∷ lines) acts party product_acts n) l
  unfolding largest_line
  covered_line l lines n = elim (Bool-cases (needs_waiver acts product_acts l)) [
    | inl needs ↦ rw needs (omega (arith, largest-le lines (max n (people_on party l))))
    | inr free ↦ rw free tt
  ]

  largest-Covers :
      (lines : List WaiverLine) (n : ℕ)
      → All (Covers (largest_line lines acts party product_acts n)) lines
  unfolding largest_line
  largest-Covers [] n = tt
  largest-Covers (l ∷ lines) n = (
    covered_line l lines n,
    largest-Covers lines
        (if needs_waiver acts product_acts l then max n (people_on party l) else n),
  )

  Covers-count :
      (lines : List WaiverLine) (l : WaiverLine)
      → party.is_group ≡ false
      → Covers (largest_line lines acts party product_acts 0) l
      → Covers (waiver_required_count lines acts party product_acts) l
  unfolding waiver_required_count
  Covers-count lines l single enough = elim (Bool-cases (needs_waiver acts product_acts l)) [
    | inl needs ↦
        let fits : min (people_on party l) (party.adults + party.kids)
            ≤ largest_line lines acts party product_acts 0 =
          if_true (needs_waiver acts product_acts l) needs enough in
        rw needs (ground arith)
    | inr free ↦ rw free tt
  ]

  -- Of a party that is not a group, enough people must sign for every line that needs a waiver: all those
  -- on the line, as far as the party has so many, and never more people must sign than the party has.
  pub waiver_required_count-Covers :
      (lines : List WaiverLine)
      → party.is_group ≡ false
      → All (Covers (waiver_required_count lines acts party product_acts)) lines
        × (waiver_required_count lines acts party product_acts
            ≤ party.adults + party.kids + or_zero party.infants)
  unfolding waiver_required_count
  waiver_required_count-Covers lines single = (
    All-mono (Covers (largest_line lines acts party product_acts 0))
        (Covers (waiver_required_count lines acts party product_acts))
        (λ l. Covers-count lines l single) lines (largest-Covers lines 0),
    ground arith,
  )
