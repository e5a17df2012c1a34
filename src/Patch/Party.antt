-- ===== src/Patch/Party.antt =====
-- staff/bookings/booking-patch.ts (fitLinesToParty, repricingItems, placesItems, linesAsItems) and
-- bookings/party-rules.ts (assertLinesFitParty): the lines of an edited booking and its new party.
use valle_web_backend.Prelude.{
  ℕ, ◌+◌, ◌≤◌, ◌≡◌, refl, String, Option, none, some, List, [], ◌∷◌, Bool, false, ◌&&◌, ◌||◌, find,
  filter, map, ltb, leb, ◌==◌, or_zero, or_default, is_some, if◌then◌else◌, str_eq, min, arith,
  Bool-cases, inl, inr,
}
use valle_web_backend.Prelude.Text.{concat, or_empty, is_filled}
use valle_web_backend.Prelude.Http.{Result, ok, bad_request, ◌>>◌, throw_if}
use valle_web_backend.Booking.{BookingLine}
use valle_web_backend.Patch.{PatchItem, BookingPatch}

pub record PartyCounts : Type 0 where
  pub adults : ℕ
  pub kids : ℕ
  pub infants : Option ℕ

pub record Party : Type 0 where
  pub adults : ℕ
  pub kids : ℕ

-- A line that counts more people than the party.
abbrev pub exceeds : PartyCounts → PatchItem → Bool
exceeds party i =
    ltb party.adults (or_zero i.adults)
    || ltb (party.kids + or_zero party.infants) (or_zero i.kids)
    || ltb (party.adults + party.kids + or_zero party.infants) (or_zero i.adults + or_zero i.kids)

unfoldable pub assert_lines_fit_party :
    List PatchItem → PartyCounts → (String → Option String) → Result (Unit {0})
assert_lines_fit_party [] party name = ok tt
assert_lines_fit_party (i ∷ items) party name =
    throw_if (exceeds party i) (
      bad_request
        (concat (or_default (name i.id) i.id ∷ " cannot count more people than the party" ∷ [])))
    >> assert_lines_fit_party items party name

-- A count of one side: it follows the party where it was the whole of it, and is clamped otherwise.
unfoldable pub fit : Option ℕ → ℕ → ℕ → ℕ
fit n old next =
    if leb (or_zero n) 0
    then 0
    else if ltb 0 old && or_zero n == old
    then next
    else min (or_zero n) next

abbrev pub per_unit : PatchItem → Bool
per_unit l = ltb 0 (or_zero l.units) && or_zero l.adults == 0 && or_zero l.kids == 0

unfoldable pub fit_line : Party → Party → PatchItem → PatchItem
fit_line from to l = if per_unit l then l else record l {
  adults = some (fit l.adults from.adults to.adults);
  kids = some (fit l.kids from.kids to.kids);
}

abbrev pub has_people : PatchItem → Bool
has_people l = ltb 0 (or_zero l.adults + or_zero l.kids + or_zero l.units)

-- Lines fitted to a new party; a line left with nobody on it is dropped.
unfoldable pub fit_lines_to_party : List PatchItem → Party → Party → List PatchItem
fit_lines_to_party lines from to = filter has_people (map (fit_line from to) lines)

abbrev pub some_text : String → Option String
some_text s = if is_filled s then some s else none

abbrev pub line_id : BookingLine → String
line_id l = or_default l.experience_id (concat ("product:" ∷ or_empty l.product_key ∷ []))

abbrev pub item_of_line : BookingLine → PatchItem
item_of_line l = record {
  id = line_id l;
  variant = some_text l.variant;
  adults = some l.adults;
  kids = some l.kids;
  units = some l.units;
  time = l.session_time;
}

-- The time that a line of the same experience and option had.
abbrev pub kept_time : PatchItem → List BookingLine → Option String
kept_time i existing =
    elim (find
      (λ (l : BookingLine).
        is_some l.experience_id
        && str_eq (or_empty l.experience_id) i.id
        && str_eq l.variant (or_empty i.variant))
      existing) [ none ↦ none | some l ↦ l.session_time ]

abbrev pub with_time : List BookingLine → PatchItem → PatchItem
with_time existing i = record i {
  time = elim i.time [ some t ↦ some t | none ↦ kept_time i existing ];
}

-- What to price: the requested lines, each with its time or the one its line had, or the booking's own.
unfoldable pub repricing_items : BookingPatch → List BookingLine → List PatchItem
repricing_items patch existing = elim patch.items [
  | some requested ↦ map (with_time existing) requested
  | none ↦ map item_of_line existing
]

-- The booking's paid lines as items; the row of the park entry has neither key.
unfoldable pub lines_as_items : List BookingLine → List PatchItem
lines_as_items lines = map item_of_line (
    filter
      (λ (l : BookingLine).
        is_filled (or_empty l.experience_id) || is_filled (or_empty l.product_key))
      lines)

-- A fitted line counts no more people than the party, for any number of infants.
fit-le : (n : Option ℕ) (old next : ℕ) → fit n old next ≤ next
unfolding fit
fit-le n old next = ground arith

fit_line-fits :
    (from to : Party) (infants : Option ℕ) (l : PatchItem)
    → exceeds
        (record { adults = to.adults; kids = to.kids; infants = infants })
        (fit_line from to l)
      ≡ false
unfolding fit_line
fit_line-fits from to infants l = elim (Bool-cases (per_unit l)) [
  | inl units ↦ ground arith
  | inr people ↦
      rw people
        (ground (arith, fit-le l.adults from.adults to.adults, fit-le l.kids from.kids to.kids))
]

-- Lines fitted to a new party always pass the check that every line fits the party, whatever the lines,
-- the old party and the number of children under six.
pub fit_lines_to_party-fit :
    (lines : List PatchItem) (from to : Party) (infants : Option ℕ) (name : String → Option String)
    → assert_lines_fit_party
        (fit_lines_to_party lines from to)
        (record { adults = to.adults; kids = to.kids; infants = infants })
        name
      ≡ ok tt
unfolding assert_lines_fit_party fit_lines_to_party
fit_lines_to_party-fit [] from to infants name = refl
fit_lines_to_party-fit (l ∷ lines) from to infants name =
    let rest = fit_lines_to_party-fit lines from to infants name in
    elim (Bool-cases (has_people (fit_line from to l))) [
      | inl kept ↦ rw (kept, fit_line-fits from to infants l, rest) refl
      | inr gone ↦ rw gone rest
    ]
