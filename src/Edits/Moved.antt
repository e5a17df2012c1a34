-- ===== src/Edits/Moved.antt =====
-- staff/bookings/booking-patch.ts (touchesPlaces): an edit that moves no place.
use valle_web_backend.Prelude.{
  ℕ, ◌≡◌, refl, Option, none, some, List, [], ◌∷◌, ◌++◌, Bool, true, false, any, or_default, arith,
  ==_iff, Bool-cases, inl, inr,
}
use valle_web_backend.Booking.{SlotKey, BookingStatus, Booking}
use valle_web_backend.Patch.{
  BookingPatch, PatchField, FieldChange, Value, number, text, requested, same_value, slot_value,
  rate_value, pay_mode_value, status_value, kind_value, field_change, audited_changes, apply_patch,
  is_place, touches_places,
}

abbrev is_place_change : FieldChange → Bool
is_place_change c = is_place c.field

any-append_false :
    (p : FieldChange → Bool) (xs ys : List FieldChange)
    → any p (xs ++ ys) ≡ false
    → (any p xs ≡ false) × (any p ys ≡ false)
any-append_false p [] ys h = (refl, h)
any-append_false p (x ∷ xs) ys h = ground (arith, any-append_false p xs ys)

number_same : (m n : ℕ) → same_value (number m) (number n) ≡ true → n ≡ m
number_same m n h = ground (arith, ==_iff m n)

slot_same : (s t : SlotKey) → same_value (slot_value s) (slot_value t) ≡ true → t ≡ s
slot_same SlotKey.morning SlotKey.morning h = refl
slot_same SlotKey.afternoon SlotKey.afternoon h = refl
slot_same SlotKey.morning SlotKey.afternoon h = cc h
slot_same SlotKey.afternoon SlotKey.morning h = cc h

status_same : (s t : BookingStatus) → same_value (status_value s) (status_value t) ≡ true → t ≡ s
status_same BookingStatus.confirmed BookingStatus.confirmed h = refl
status_same BookingStatus.arrived BookingStatus.arrived h = refl
status_same BookingStatus.cancelled BookingStatus.cancelled h = refl
status_same BookingStatus.postponed BookingStatus.postponed h = refl
status_same BookingStatus.confirmed t h = cc h
status_same BookingStatus.arrived t h = cc h
status_same BookingStatus.cancelled t h = cc h
status_same BookingStatus.postponed t h = cc h

-- A field of the places that is no change was not sent, or as it is stored.
module _ {A : Type 0} (field : PatchField) (value : A → Value)
    (same : (a b : A) → same_value (value a) (value b) ≡ true → b ≡ a)
    (place : is_place field ≡ true) where
  field_kept :
      (stored : A) (sent : Option A)
      → any is_place_change (field_change field (value stored) value sent) ≡ false
      → or_default sent stored ≡ stored
  field_kept stored none h = refl
  field_kept stored (some to) h = elim (Bool-cases (same_value (value stored) (value to))) [
    | inl equal ↦ same stored to equal
    | inr other ↦ absurd (ground arith)
  ]

pub record SamePlace (b b' : Booking) : Type 0 where
  pub visit_date : b'.visit_date ≡ b.visit_date
  pub slot : b'.slot ≡ b.slot
  pub adults : b'.adults ≡ b.adults
  pub kids : b'.kids ≡ b.kids
  pub infants : b'.infants ≡ b.infants
  pub status : b'.status ≡ b.status

pub apply_patch-SamePlace :
    (b : Booking) (p : BookingPatch)
    → touches_places (audited_changes b p) ≡ false
    → SamePlace b (apply_patch b p)
unfolding audited_changes apply_patch touches_places
apply_patch-SamePlace b p h =
    let f1 = field_change PatchField.visit_date (number b.visit_date) number p.visit_date in
    let s1 = f1 in
    let f2 = field_change PatchField.slot (slot_value b.slot) slot_value p.slot in
    let s2 = s1 ++ f2 in
    let f3 = field_change PatchField.adults (number b.adults) number p.adults in
    let s3 = s2 ++ f3 in
    let f4 = field_change PatchField.kids (number b.kids) number p.kids in
    let s4 = s3 ++ f4 in
    let f5 = field_change PatchField.infants (number b.infants) number p.infants in
    let s5 = s4 ++ f5 in
    let f6 = field_change PatchField.rate (rate_value b.rate) rate_value p.rate in
    let s6 = s5 ++ f6 in
    let f7 = field_change PatchField.guest_name (text b.guest_name) text p.guest_name in
    let s7 = s6 ++ f7 in
    let f8 = field_change PatchField.phone (text b.phone) text p.phone in
    let s8 = s7 ++ f8 in
    let f9 = field_change PatchField.email (text b.email) text p.email in
    let s9 = s8 ++ f9 in
    let f10 =
      field_change PatchField.pay_mode (pay_mode_value b.pay_mode) pay_mode_value p.pay_mode in
    let s10 = s9 ++ f10 in
    let f11 = field_change PatchField.status (status_value b.status) status_value p.status in
    let s11 = s10 ++ f11 in
    let f12 = field_change PatchField.staff_note (text b.staff_note) text p.staff_note in
    let s12 = s11 ++ f12 in
    let f13 = field_change PatchField.items (text "") requested p.items in
    let s13 = s12 ++ f13 in
    let f14 =
      field_change PatchField.adjustment_kind (kind_value b.adjustment_kind) kind_value
        p.adjustment_kind in
    let s14 = s13 ++ f14 in
    let f15 =
      field_change PatchField.adjustment_value (number b.adjustment_value) number
        p.adjustment_value in
    let s15 = s14 ++ f15 in
    let f16 =
      field_change PatchField.adjustment_note (text b.adjustment_note) text p.adjustment_note in
    let s16 = s15 ++ f16 in
    let f17 = field_change PatchField.coupon_code (text b.coupon_code) text p.coupon_code in
    let s17 = s16 ++ f17 in
    let (h16, _) = any-append_false is_place_change s16 f17 h in
    let (h15, _) = any-append_false is_place_change s15 f16 h16 in
    let (h14, _) = any-append_false is_place_change s14 f15 h15 in
    let (h13, _) = any-append_false is_place_change s13 f14 h14 in
    let (h12, _) = any-append_false is_place_change s12 f13 h13 in
    let (h11, _) = any-append_false is_place_change s11 f12 h12 in
    let (h10, k11) = any-append_false is_place_change s10 f11 h11 in
    let (h9, _) = any-append_false is_place_change s9 f10 h10 in
    let (h8, _) = any-append_false is_place_change s8 f9 h9 in
    let (h7, _) = any-append_false is_place_change s7 f8 h8 in
    let (h6, _) = any-append_false is_place_change s6 f7 h7 in
    let (h5, _) = any-append_false is_place_change s5 f6 h6 in
    let (h4, k5) = any-append_false is_place_change s4 f5 h5 in
    let (h3, k4) = any-append_false is_place_change s3 f4 h4 in
    let (h2, k3) = any-append_false is_place_change s2 f3 h3 in
    let (h1, k2) = any-append_false is_place_change s1 f2 h2 in
    record {
      visit_date =
          field_kept PatchField.visit_date number number_same refl b.visit_date p.visit_date h1;
      slot = field_kept PatchField.slot slot_value slot_same refl b.slot p.slot k2;
      adults = field_kept PatchField.adults number number_same refl b.adults p.adults k3;
      kids = field_kept PatchField.kids number number_same refl b.kids p.kids k4;
      infants = field_kept PatchField.infants number number_same refl b.infants p.infants k5;
      status = field_kept PatchField.status status_value status_same refl b.status p.status k11;
    }
