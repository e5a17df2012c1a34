-- ===== src/Waivers.antt =====
-- waivers/waiver-rules.ts: who must sign, what a signed waiver is warned about, and what the gate checks
-- once for the party. AgeLabel reads the ages of a label, and Register is waivers/waivers.service.ts: the
-- signatures. The parsing of settings texts is left out.
pub mod Gate
pub mod AgeLabel
pub mod Signing
pub mod Register
pub mod Current
mod Tests
use valle_web_backend.Prelude.{
  ℕ, suc, ◌+◌, ◌-◌, ◌/◌, ◌%◌, String, Option, none, some, List, [], ◌∷◌, ◌++◌, Bool, true, false,
  ◌&&◌, ◌||◌, not, filter, any, map, ltb, leb, ◌==◌, or_zero, or_default, is_some, if◌then◌else◌,
  str_eq, min, max,
}
use valle_web_backend.Prelude.Integers.{ℤ, pos, negsuc, diff}
use valle_web_backend.Prelude.Text.{concat, decimal}
use valle_web_backend.Day.{Day}

pub record ActivityLimits : Type 0 where
  pub min_age : Option ℕ
  pub max_age : Option ℕ
  pub drive_min_age : Option ℕ
  pub min_weight_kg : Option ℕ
  pub max_weight_kg : Option ℕ
  pub min_height_cm : Option ℕ
  pub max_height_cm : Option ℕ

pub record People : Type 0 where
  pub adults : ℕ
  pub kids : ℕ

pub record GateActivity : Type 0 where
  pub id : String
  pub name : String
  pub limits : ActivityLimits
  pub people : Option People

pub data OnLine : Type 0 where
  yes no unknown : OnLine

-- age >= n, age < n and age > n, for an age that may be negative.
abbrev pub at_least : ℕ → ℤ → Bool
at_least n (pos a) = leb n a
at_least n (negsuc a) = false

abbrev pub below : ℤ → ℕ → Bool
below (pos a) n = ltb a n
below (negsuc a) n = true

abbrev pub above : ℤ → ℕ → Bool
above (pos a) n = ltb n a
above (negsuc a) n = false

abbrev pub age_text : ℤ → String
age_text (pos a) = decimal a
age_text (negsuc a) = concat ("-" ∷ decimal (suc a) ∷ [])

abbrev pub is_yes : OnLine → Bool
is_yes OnLine.yes = true
is_yes _ = false

-- Is this activity's line only part of an age band?
unfoldable pub partial_on : GateActivity → People → Bool
partial_on a party = elim a.people [
  | none ↦ false
  | some l ↦
      (ltb 0 l.adults && ltb l.adults party.adults)
      || (ltb 0 l.kids && ltb l.kids party.kids)
      || ltb party.kids l.kids
]

-- Is a person of this age on a line?
unfoldable pub on_line : ℤ → People → People → OnLine
on_line age l party =
    if at_least 12 age
    then (if leb l.adults 0
        then OnLine.no
        else if leb party.adults l.adults
        then OnLine.yes
        else OnLine.unknown)
    else if at_least 6 age
    then (if leb l.kids 0
        then OnLine.no
        else if leb party.kids l.kids
        then OnLine.yes
        else OnLine.unknown)
    else if leb l.kids party.kids
    then OnLine.no
    else OnLine.unknown

-- The activities a participant of this age is certainly on.
unfoldable pub activities_of : ℤ → List GateActivity → People → List GateActivity
activities_of age activities party =
    filter
      (λ (a : GateActivity). elim a.people [ none ↦ true | some l ↦ is_yes (on_line age l party) ])
      activities

-- Whole years between the birth date and the visit date.
unfoldable pub age_on : Day → Day → ℤ
age_on birth on =
    if ltb (on / 100 % 100) (birth / 100 % 100)
      || ((on / 100 % 100) == (birth / 100 % 100) && ltb (on % 100) (birth % 100))
    then diff (on / 10_000) (birth / 10_000 + 1)
    else diff (on / 10_000) (birth / 10_000)

pub data Level : Type 0 where
  stop check : Level

pub record WaiverFlag : Type 0 where
  pub level : Level
  pub activity : String
  pub message : String

pub record Participant : Type 0 where
  pub birth_date : Day
  pub height_cm : ℕ
  pub weight_kg : ℕ

-- One limit: no flag where it is not set or is kept.
abbrev pub flag_if : Option ℕ → (ℕ → Bool) → (ℕ → WaiverFlag) → List WaiverFlag
flag_if none broken flag = []
flag_if (some limit) broken flag = if broken limit then flag limit ∷ [] else []

-- The flags of one activity, in the order of the limits.
unfoldable pub activity_flags : Participant → ℤ → GateActivity → List WaiverFlag
activity_flags p age a =
    let l = a.limits in
    let flag : Level → List String → WaiverFlag =
      λ level parts. record { level = level; activity = a.name; message = concat parts } in
    flag_if l.min_age (λ n. below age n)
      (λ n. flag Level.stop ("Age " ∷ age_text age ∷ ", minimum " ∷ decimal n ∷ []))
    ++ flag_if l.max_age (λ n. above age n)
        (λ n. flag Level.check (
          "Age "
          ∷ age_text age
          ∷ ", made for "
          ∷ decimal (or_zero l.min_age)
          ∷ "–"
          ∷ decimal n
          ∷ []))
    ++ flag_if l.drive_min_age (λ n. below age n)
        (λ n.
          flag Level.check
            ("Age " ∷ age_text age ∷ ": passenger only, drivers " ∷ decimal n ∷ "+" ∷ []))
    ++ flag_if l.max_weight_kg (λ n. ltb n p.weight_kg)
        (λ n. flag Level.stop (decimal p.weight_kg ∷ " kg, maximum " ∷ decimal n ∷ " kg" ∷ []))
    ++ flag_if l.min_weight_kg (λ n. ltb p.weight_kg n)
        (λ n. flag Level.stop (decimal p.weight_kg ∷ " kg, minimum " ∷ decimal n ∷ " kg" ∷ []))
    ++ flag_if l.max_height_cm (λ n. ltb n p.height_cm)
        (λ n. flag Level.stop (decimal p.height_cm ∷ " cm, maximum " ∷ decimal n ∷ " cm" ∷ []))
    ++ flag_if l.min_height_cm (λ n. ltb p.height_cm n)
        (λ n. flag Level.stop (decimal p.height_cm ∷ " cm, minimum " ∷ decimal n ∷ " cm" ∷ []))

unfoldable pub flags_for : Participant → Day → List GateActivity → List WaiverFlag
flags_for p visit [] = []
flags_for p visit (a ∷ activities) =
    activity_flags p (age_on p.birth_date visit) a ++ flags_for p visit activities

pub record WaiverLine : Type 0 where
  pub experience_id : Option String
  pub product_key : Option String
  pub adults : ℕ
  pub kids : ℕ

pub record WaiverParty : Type 0 where
  pub adults : ℕ
  pub kids : ℕ
  pub infants : Option ℕ
  pub is_group : Bool

-- The experiences a line puts people on: its own, or what its package contains.
unfoldable pub line_activities : WaiverLine → (String → Option (List String)) → List String
line_activities l product_acts = elim l.experience_id [
  | some id ↦ id ∷ []
  | none ↦ elim l.product_key [ none ↦ [] | some key ↦ or_default (product_acts key) [] ]
]

abbrev pub needs_waiver : List String → (String → Option (List String)) → WaiverLine → Bool
needs_waiver acts product_acts l = any (λ id. any (str_eq id) acts) (line_activities l product_acts)

abbrev pub people_on : WaiverParty → WaiverLine → ℕ
people_on party l =
    if ltb 0 (l.adults + l.kids) then l.adults + l.kids else party.adults + party.kids

-- The largest party on a line that needs a waiver.
unfoldable pub largest_line :
    List WaiverLine → List String → WaiverParty → (String → Option (List String)) → ℕ → ℕ
largest_line [] acts party product_acts n = n
largest_line (l ∷ lines) acts party product_acts n =
    largest_line lines acts party product_acts
      (if needs_waiver acts product_acts l then max n (people_on party l) else n)

-- How many people must sign.
unfoldable pub waiver_required_count :
    List WaiverLine → List String → WaiverParty → (String → Option (List String)) → ℕ
waiver_required_count lines acts party product_acts =
    let n = largest_line lines acts party product_acts 0 in
    if party.is_group
    then 1
    else if n == 0
    then 0
    else min n (party.adults + party.kids) + or_zero party.infants
