-- ===== src/Chat/Run.antt =====
-- chat/chat.service.ts: the messages that wait for the staff after any calls.
use valle_web_backend.Prelude.{
  ℕ, ◌==◌, ◌≡◌, refl, String, Option, none, some, List, [], ◌∷◌, true, if◌then◌else◌, Bool-cases,
  inl, inr,
}
use valle_web_backend.Prelude.Http.{ok, ◌>>=◌, Result-cases}
use valle_web_backend.Prelude.Rows.{row, save, IsKeyed, IsKeyed-save}
use valle_web_backend.Booking.{Time}
use valle_web_backend.Chat.{
  ChatConversation, ChatSender, visitor, staff, system, UploadedChatFile, Threads,
}
use valle_web_backend.Chat.Service.{
  conversation_key, is_uuid, require_conversation, assert_visitor_owns, put_conversation, is_open,
  newest_open, identified, new_conversation, with_session, start_session, seen, ended,
  mark_staff_read, close, add_visitor_message, add_staff_message,
}
use valle_web_backend.Chat.Files.{accepted_kind, add_attachment}
use valle_web_backend.Chat.Calls.{
  ChatCall, started, visitor_wrote, staff_wrote, visitor_sent, staff_sent, staff_read, staff_closed,
  run_chat_call, after_result, run_chat_calls,
}
use valle_web_backend.Chat.Unread.{next_waiting, waiting_after, Counted}
use valle_web_backend.Chat.Backlog.{
  wrote-Counted, answer-Counted, read-Counted, close-Counted, visitor_file-Counted,
  staff_file-Counted, session-Counted,
}

abbrev pub HasKeys : Threads → Type 0
HasKeys t = IsKeyed conversation_key t.conversations

-- The key that is drawn for a new conversation is unused.
abbrev IsFreshCall : ChatCall → Threads → Type 0
IsFreshCall (started id now by name email) t = row conversation_key t.conversations id ≡ none
IsFreshCall _ t = Unit

-- So at every call of a run.
unfoldable pub AreFreshCalls : List ChatCall → Threads → Type 0
AreFreshCalls [] t = Unit
AreFreshCalls (c ∷ cs) t = IsFreshCall c t × AreFreshCalls cs (after_result t (run_chat_call c t))

staff_call-HasKeys :
    (k : String) (T : ChatConversation → Threads) (t : Threads)
    → HasKeys t
    → ((c : ChatConversation) → HasKeys (T c))
    → HasKeys (after_result t (require_conversation k t >>= λ c. ok (T c)))
staff_call-HasKeys k T t keyed all = elim (Result-cases (require_conversation k t)) [
  | inl (c, found) ↦ rw found (all c)
  | inr (e, gone) ↦ rw gone keyed
]

visitor_call-HasKeys :
    (k by : String) (T : ChatConversation → Threads) (t : Threads)
    → HasKeys t
    → ((c : ChatConversation) → HasKeys (T c))
    → HasKeys (after_result t (assert_visitor_owns k by t >>= λ c. ok (T c)))
visitor_call-HasKeys k by T t keyed all = elim (Result-cases (assert_visitor_owns k by t)) [
  | inl (c, found) ↦ rw found (all c)
  | inr (e, gone) ↦ rw gone keyed
]

saved :
    (f : ChatConversation → ChatConversation) (t : Threads)
    → HasKeys t
    → (c : ChatConversation)
    → IsKeyed conversation_key (save conversation_key (f c) t.conversations)
saved f t keyed c = IsKeyed-save conversation_key (f c) t.conversations keyed

session-HasKeys :
    (fresh : ChatConversation) (name email : Option String) (found : Option ChatConversation)
    (t : Threads)
    → HasKeys t
    → row conversation_key t.conversations fresh.id ≡ none
    → HasKeys (with_session fresh name email found t).1
unfolding with_session
session-HasKeys fresh name email none t keyed unused = (unused, keyed)
session-HasKeys fresh name email (some c) t keyed unused = saved (identified name email) t keyed c

file-HasKeys :
    (m a : String) (now : Time) (k : String) (sender : ChatSender) (staff_id : Option String)
    (by : String) (f : UploadedChatFile) (caption : String) (t : Threads)
    → HasKeys t
    → HasKeys (after_result t (add_attachment m a now k sender staff_id by f caption t))
unfolding add_attachment
file-HasKeys m a now k visitor staff_id by f caption t keyed =
    elim (Result-cases (accepted_kind f)) [
      | inr (e, refused) ↦ rw refused keyed
      | inl (kind, taken) ↦ rw taken (visitor_call-HasKeys k by _ t keyed (saved _ t keyed))
    ]
file-HasKeys m a now k staff staff_id by f caption t keyed = elim (Result-cases (accepted_kind f)) [
  | inr (e, refused) ↦ rw refused keyed
  | inl (kind, taken) ↦ rw taken (staff_call-HasKeys k _ t keyed (saved _ t keyed))
]
file-HasKeys m a now k system staff_id by f caption t keyed =
    elim (Result-cases (accepted_kind f)) [
      | inr (e, refused) ↦ rw refused keyed
      | inl (kind, taken) ↦ rw taken (staff_call-HasKeys k _ t keyed (saved _ t keyed))
    ]

run_chat_call-HasKeys :
    (call : ChatCall) (t : Threads)
    → HasKeys t
    → IsFreshCall call t
    → HasKeys (after_result t (run_chat_call call t))
unfolding run_chat_call start_session new_conversation add_visitor_message add_staff_message
    mark_staff_read close
run_chat_call-HasKeys (started id now by name email) t keyed unused =
    session-HasKeys (new_conversation id now by name email) name email
      (newest_open by t.conversations) t keyed unused
run_chat_call-HasKeys (visitor_wrote m now k by body) t keyed unused =
    visitor_call-HasKeys k by _ t keyed (saved _ t keyed)
run_chat_call-HasKeys (staff_wrote m now k by body) t keyed unused =
    staff_call-HasKeys k _ t keyed (saved _ t keyed)
run_chat_call-HasKeys (visitor_sent m a now k by f caption) t keyed unused =
    file-HasKeys m a now k visitor none by f caption t keyed
run_chat_call-HasKeys (staff_sent m a now k by f caption) t keyed unused =
    file-HasKeys m a now k staff (some by) "" f caption t keyed
run_chat_call-HasKeys (staff_read k) t keyed unused =
    staff_call-HasKeys k (λ c. if c.unread_staff == 0 then t else put_conversation (seen c) t) t
      keyed
      (λ c. elim (Bool-cases (c.unread_staff == 0)) [
        | inl zero ↦ rw zero keyed
        | inr more ↦ rw more (saved seen t keyed c)
      ])
run_chat_call-HasKeys (staff_closed k) t keyed unused =
    staff_call-HasKeys k (λ c. if is_open c.status then put_conversation (ended c) t else t) t keyed
      (λ c. elim (Bool-cases (is_open c.status)) [
        | inl open_now ↦ rw open_now (saved ended t keyed c)
        | inr shut ↦ rw shut keyed
      ])

module _ (id key : String) (known : is_uuid id ≡ true) where
  run_chat_call-Counted :
      (call : ChatCall) (t : Threads) (p : ℕ)
      → HasKeys t
      → IsFreshCall call t
      → Counted id key p t
      → Counted id key (next_waiting id key p call) (after_result t (run_chat_call call t))
  unfolding run_chat_call next_waiting start_session new_conversation
  run_chat_call-Counted (started n now by name email) t p keyed unused h =
      session-Counted id key known (new_conversation n now by name email) name email
        (newest_open by t.conversations) by t p keyed unused refl h
  run_chat_call-Counted (visitor_wrote m now k by body) t p keyed unused h =
      wrote-Counted id key known m now k by body t p h
  run_chat_call-Counted (staff_wrote m now k by body) t p keyed unused h =
      answer-Counted id key known m now k by body t p h
  run_chat_call-Counted (visitor_sent m a now k by f caption) t p keyed unused h =
      visitor_file-Counted id key known m a now k by f caption t p h
  run_chat_call-Counted (staff_sent m a now k by f caption) t p keyed unused h =
      staff_file-Counted id key known m a now k by f caption t p h
  run_chat_call-Counted (staff_read k) t p keyed unused h = read-Counted id key known k t p h
  run_chat_call-Counted (staff_closed k) t p keyed unused h = close-Counted id key known k t p h

-- Whatever sessions, messages, files, looks and closings follow one another, refused calls and those on
-- other conversations included, a conversation with a well-formed key stays that of its visitor, and its
-- counter of messages unread by the staff is what the calls alone tell: what its own visitor sent since
-- the staff last answered or looked. The keys of conversations are distinct, and those that are drawn for
-- new ones are unused.
pub run_chat_calls-Counted :
    (id key : String) (calls : List ChatCall) (t : Threads) (p : ℕ)
    → is_uuid id ≡ true
    → HasKeys t
    → AreFreshCalls calls t
    → Counted id key p t
    → Counted id key (waiting_after id key p calls) (run_chat_calls calls t)
unfolding run_chat_calls waiting_after AreFreshCalls
run_chat_calls-Counted id key [] t p known keyed unused h = h
run_chat_calls-Counted id key (c ∷ cs) t p known keyed (unused, later) h =
    run_chat_calls-Counted id key cs (after_result t (run_chat_call c t)) (next_waiting id key p c)
      known (run_chat_call-HasKeys c t keyed unused) later
      (run_chat_call-Counted id key known c t p keyed unused h)
