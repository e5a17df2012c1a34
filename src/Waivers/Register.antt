-- ===== src/Waivers/Register.antt =====
-- waivers/waivers.service.ts (sign) with signerFor and newWaiverRecord of waivers/waiver-views.ts: the
-- signed waivers, of which a newer signature supersedes the older one. How many must sign is an argument,
-- which waiver_required_count works out. Left out are the contact and consent fields, and the copy by mail.
use Prim.Native.Char.{code}
use Prim.Native.String
use valle_web_backend.Prelude.{
  ℕ, ◌+◌, ◌==◌, String, Option, none, some, List, [], ◌∷◌, Bool, true, false, ◌&&◌, ◌||◌, not, find,
  leb, is_some, if◌then◌else◌, str_eq,
}
use valle_web_backend.Prelude.Text.{trim, or_empty, is_filled, is_space}
use valle_web_backend.Prelude.Upper.{lower}
use valle_web_backend.Prelude.Http.{Result, ok, err, bad_request, conflict, ◌>>=◌, ◌>>◌, throw_if}
use valle_web_backend.Day.{Day}
use valle_web_backend.Booking.{Time, BookingStatus, Booking}
use valle_web_backend.Waivers.{age_on, above, below}

pub record Waiver : Type 0 where
  pub id : String
  pub booking_id : String
  pub participant_name : String
  pub birth_date : Day
  pub height_cm : ℕ
  pub weight_kg : ℕ
  pub is_minor : Bool
  pub guardian_name : String
  pub signed_by : String
  pub version : ℕ
  pub superseded_at : Option Time
  pub signed_at : Time

pub record SignWaiver : Type 0 where
  pub participant_name : String
  pub birth_date : Day
  pub height_cm : ℕ
  pub weight_kg : ℕ
  pub guardian_name : Option String

pub record Signer : Type 0 where
  pub name : String
  pub is_minor : Bool
  pub guardian : String

abbrev pub starts_blank : String → Bool
starts_blank String.[] = false
starts_blank (String.◌∷◌ c s) = is_space (code c)

-- s.replace(/\s+/g, ' ')
unfoldable pub collapsed : String → String
collapsed String.[] = ""
collapsed (String.◌∷◌ c s) =
    let rest = collapsed s in
    if is_space (code c)
    then (if starts_blank rest then rest else String.◌++◌ " " rest)
    else String.◌∷◌ c rest

abbrev pub max_age : ℕ
max_age = 110

abbrev pub adult_age : ℕ
adult_age = 18

-- The age on the day of the visit says who signs.
unfoldable pub signer_for : SignWaiver → Day → Result Signer
signer_for dto visit_date =
    let age = age_on dto.birth_date visit_date in
    let is_minor = below age adult_age in
    let guardian = trim (or_empty dto.guardian_name) in
    throw_if (below age 0 || above age max_age) (bad_request "Please check the date of birth")
    >> throw_if (is_minor && not (is_filled guardian))
        (bad_request "A parent or guardian must sign for a participant under 18")
    >> ok (record {
      name = collapsed (trim dto.participant_name);
      is_minor = is_minor;
      guardian = guardian;
    })

unfoldable pub new_waiver_record : String → Time → SignWaiver → Booking → Signer → ℕ → Waiver
new_waiver_record id now dto b signer version = record {
  id = id;
  booking_id = b.id;
  participant_name = signer.name;
  birth_date = dto.birth_date;
  height_cm = dto.height_cm;
  weight_kg = dto.weight_kg;
  is_minor = signer.is_minor;
  guardian_name = if signer.is_minor then signer.guardian else "";
  signed_by = if signer.is_minor then signer.guardian else signer.name;
  version = version;
  superseded_at = none;
  signed_at = now;
}

unfoldable pub is_open : Day → Booking → Bool
is_open today b =
    elim b.status [ BookingStatus.cancelled ↦ false | _ ↦ true ] && leb today b.visit_date

-- Only the latest signature of each participant counts.
unfoldable pub is_current : String → Waiver → Bool
is_current booking_id w = str_eq w.booking_id booking_id && not (is_some w.superseded_at)

-- lower(w.participant_name) = lower(:name)
unfoldable pub is_current_of : String → String → Waiver → Bool
is_current_of booking_id name w =
    is_current booking_id w && str_eq (lower w.participant_name) (lower name)

unfoldable pub count_if : (Waiver → Bool) → List Waiver → ℕ
count_if p [] = 0
count_if p (w ∷ ws) = let rest = count_if p ws in if p w then rest + 1 else rest

abbrev pub superseded : Time → Waiver → Waiver
superseded now w = record w { superseded_at = some now }

unfoldable pub supersede : Time → String → List Waiver → List Waiver
supersede now id [] = []
supersede now id (w ∷ ws) = (if str_eq w.id id then superseded now w else w) ∷ supersede now id ws

abbrev pub all_signed : String
all_signed =
    "Everyone in this booking has already signed. To correct a waiver, sign again under the same name."

-- The older signature is superseded, never overwritten; a new participant needs a place that is left.
unfoldable pub put_signature :
    Time → Booking → ℕ → Option Waiver → (ℕ → Waiver) → List Waiver → Result (List Waiver)
put_signature now b required none signature ws =
    throw_if (leb required (count_if (is_current b.id) ws)) (conflict all_signed)
    >> ok (signature 1 ∷ ws)
put_signature now b required (some w) signature ws =
    ok (signature (w.version + 1) ∷ supersede now w.id ws)

unfoldable pub sign :
    String → Time → Day → Booking → ℕ → SignWaiver → List Waiver → Result (List Waiver)
sign id now today b required dto ws = do
  throw_if (not (is_open today b)) (conflict "This booking can no longer take waivers")
  throw_if (required == 0) (conflict "Nothing on this booking needs a waiver")
  signer ← signer_for dto b.visit_date
  put_signature now b required (find (is_current_of b.id signer.name) ws)
      (new_waiver_record id now dto b signer) ws

-- One signature as it is sent: its key and time, the day, the booking and how many must sign by then.
pub record SignCall : Type 0 where
  pub id : String
  pub now : Time
  pub today : Day
  pub booking : Booking
  pub required : ℕ
  pub dto : SignWaiver

abbrev pub signed_or : List Waiver → Result (List Waiver) → List Waiver
signed_or ws (ok ws') = ws'
signed_or ws (err e) = ws

unfoldable pub run_signs : List SignCall → List Waiver → List Waiver
run_signs [] ws = ws
run_signs (c ∷ cs) ws =
    run_signs cs (signed_or ws (sign c.id c.now c.today c.booking c.required c.dto ws))
