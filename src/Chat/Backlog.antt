-- ===== src/Chat/Backlog.antt =====
-- chat/chat.service.ts: the messages that wait for the staff after each call.
use mathlib.Core.Path.{subst}
use valle_web_backend.Prelude.{
  ℕ, ◌+◌, ◌==◌, ==_iff, ◌≡◌, refl, sym, ap, ◌∙◌, String, Option, none, some, List, [], ◌∷◌, Bool,
  true, false, ◌&&◌, if◌then◌else◌, str_eq, eq_iff, arith, Bool-cases, Option-cases, inl, inr,
}
use valle_web_backend.Prelude.Http.{Result-cases}
use valle_web_backend.Prelude.Rows.{row, IsKeyed}
use valle_web_backend.Booking.{Time}
use valle_web_backend.Chat.{ChatConversation, visitor, staff, UploadedChatFile, Threads}
use valle_web_backend.Chat.Service.{
  conversation_key, is_uuid, put_conversation, visitor_posted, staff_posted, is_open, newest_open,
  identified, with_session, seen, ended, mark_staff_read, close, add_visitor_message,
  add_staff_message,
}
use valle_web_backend.Chat.Files.{accepted_kind, add_attachment}
use valle_web_backend.Chat.Calls.{after_result}
use valle_web_backend.Chat.Unread.{
  waiting, is_ok, Counted, put-row, kept-row, staff-Counted, visitor-Counted,
}

seen_zero : (c : ChatConversation) → (c.unread_staff == 0) ≡ true → seen c ≡ c
seen_zero c h = ap (λ n. record c { unread_staff = n }) (sym ((==_iff c.unread_staff 0).0 h))

if_same : (b : Bool) (p : ℕ) → (if b then p else p) ≡ p
if_same true p = refl
if_same false p = refl

module _ (id key : String) (known : is_uuid id ≡ true) where
  pub wrote-Counted :
      (m : String) (now : Time) (k by body : String) (t : Threads) (p : ℕ)
      → Counted id key p t
      → Counted id key
          (if str_eq k id && str_eq key by then p + 1 else p)
          (after_result t (add_visitor_message m now k by body t))
  unfolding add_visitor_message visitor_posted
  wrote-Counted m now k by body t p h =
      visitor-Counted id key known k by (visitor_posted now) (λ n. n + 1) _ t p
        (λ c there. put-row id key known k (visitor_posted now) t c there refl) (λ c. (refl, refl))
        h

  pub answer-Counted :
      (m : String) (now : Time) (k by body : String) (t : Threads) (p : ℕ)
      → Counted id key p t
      → Counted id key
          (if str_eq k id then 0 else p)
          (after_result t (add_staff_message m now k by body t))
  unfolding add_staff_message staff_posted
  answer-Counted m now k by body t p h =
      staff-Counted id key known k (staff_posted now) (λ n. 0) _ t p
        (λ c there. put-row id key known k (staff_posted now) t c there refl) (λ c. (refl, refl)) h

  pub read-Counted :
      (k : String) (t : Threads) (p : ℕ)
      → Counted id key p t
      → Counted id key (if str_eq k id then 0 else p) (after_result t (mark_staff_read k t))
  unfolding mark_staff_read
  read-Counted k t p h =
      staff-Counted id key known k seen (λ n. 0)
        (λ c. if c.unread_staff == 0 then t else put_conversation (seen c) t) t p
        (λ c there. elim (Bool-cases (c.unread_staff == 0)) [
          | inl zero ↦ rw zero (
              kept-row id key known k t c there
              ∙ ap (λ x. if str_eq k id then some x else row conversation_key t.conversations id)
                  (sym (seen_zero c zero)))
          | inr more ↦ rw more (put-row id key known k seen t c there refl)
        ])
        (λ c. (refl, refl)) h

  pub close-Counted :
      (k : String) (t : Threads) (p : ℕ)
      → Counted id key p t
      → Counted id key p (after_result t (close k t))
  unfolding close
  close-Counted k t p h =
      subst (λ q. Counted id key q (after_result t (close k t))) (if_same (str_eq k id) p)
        (staff-Counted id key known k (λ c. if is_open c.status then ended c else c) (λ q. q)
          (λ c. if is_open c.status then put_conversation (ended c) t else t) t p
          (λ c there. elim (Bool-cases (is_open c.status)) [
            | inl open_now ↦ rw open_now (put-row id key known k ended t c there refl)
            | inr shut ↦ rw shut (kept-row id key known k t c there)
          ])
          (λ c. ground arith) h)

  -- A file counts like a message, once it is accepted.
  pub visitor_file-Counted :
      (m a : String) (now : Time) (k by : String) (f : UploadedChatFile) (caption : String)
      (t : Threads) (p : ℕ)
      → Counted id key p t
      → Counted id key
          (if is_ok (accepted_kind f)
            then (if str_eq k id && str_eq key by then p + 1 else p)
            else p)
          (after_result t (add_attachment m a now k visitor none by f caption t))
  unfolding add_attachment visitor_posted
  visitor_file-Counted m a now k by f caption t p h = elim (Result-cases (accepted_kind f)) [
    | inr (e, refused) ↦ rw refused h
    | inl (kind, taken) ↦ rw taken (
        visitor-Counted id key known k by (visitor_posted now) (λ n. n + 1) _ t p
          (λ c there. put-row id key known k (visitor_posted now) t c there refl)
          (λ c. (refl, refl)) h)
  ]

  pub staff_file-Counted :
      (m a : String) (now : Time) (k by : String) (f : UploadedChatFile) (caption : String)
      (t : Threads) (p : ℕ)
      → Counted id key p t
      → Counted id key
          (if is_ok (accepted_kind f) then (if str_eq k id then 0 else p) else p)
          (after_result t (add_attachment m a now k staff (some by) "" f caption t))
  unfolding add_attachment staff_posted
  staff_file-Counted m a now k by f caption t p h = elim (Result-cases (accepted_kind f)) [
    | inr (e, refused) ↦ rw refused h
    | inl (kind, taken) ↦ rw taken (
        staff-Counted id key known k (staff_posted now) (λ n. 0) _ t p
          (λ c there. put-row id key known k (staff_posted now) t c there refl) (λ c. (refl, refl))
          h)
  ]

-- The newest open conversation of a key is one of its own.
newest_open-row :
    (key : String) (rows : List ChatConversation) (c : ChatConversation)
    → IsKeyed conversation_key rows
    → newest_open key rows ≡ some c
    → row conversation_key rows c.id ≡ some c
unfolding newest_open row
newest_open-row key [] c keyed h = cc h
newest_open-row key (r ∷ rows) c (fresh, keyed) h = elim (Option-cases (newest_open key rows)) [
  | inl gone ↦ ground (arith, eq_iff r.id c.id)
  | inr (d, found) ↦
      let rest = newest_open-row key rows d keyed found in
      ground (arith, eq_iff r.id c.id, eq_iff r.id d.id)
]

module _ (id key : String) (known : is_uuid id ≡ true) where
  pub session-Counted :
      (fresh : ChatConversation) (name email : Option String) (found : Option ChatConversation)
      (by : String) (t : Threads) (p : ℕ)
      → IsKeyed conversation_key t.conversations
      → row conversation_key t.conversations fresh.id ≡ none
      → newest_open by t.conversations ≡ found
      → Counted id key p t
      → Counted id key p (with_session fresh name email found t).1
  unfolding with_session identified row
  session-Counted fresh name email none by t p keyed unused is_found (c, there, mine, counted) =
      (c, ground (arith, eq_iff fresh.id id), mine, counted)
  session-Counted fresh name email (some d) by t p keyed unused is_found (c, there, mine, counted) =
      let at_d = newest_open-row by t.conversations d keyed is_found in
      let after = put-row id key known d.id (identified name email) t d at_d refl in
      elim (Bool-cases (str_eq d.id id)) [
        | inl this ↦
            let same : d ≡ c = ground (arith, eq_iff d.id id) in
            (
              identified name email d,
              ground arith,
              ap (λ (x : ChatConversation). x.visitor_key) same ∙ mine,
              ap waiting same ∙ counted,
            )
        | inr other ↦ (c, ground arith, mine, counted)
      ]
