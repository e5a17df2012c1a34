-- ===== src/Chat/Service.antt =====
-- chat/chat.service.ts: the sessions, messages and marks. Keys and the time are drawn by the caller.
use valle_web_backend.Prelude.{
  ℕ, zero, suc, ◌+◌, ◌==◌, String, Option, none, some, List, [], ◌∷◌, Bool, true, false, ◌&&◌, ◌||◌,
  not, leb, ltb, if◌then◌else◌, str_eq,
}
use valle_web_backend.Prelude.Text.{trim, codes, or_empty, is_filled}
use valle_web_backend.Prelude.Http.{
  Result, ok, not_found, forbidden, ◌>>=◌, ◌>>◌, throw_if, or_throw,
}
use valle_web_backend.Prelude.Rows.{row, save}
use valle_web_backend.Booking.{Time}
use valle_web_backend.Chat.{
  ChatSender, visitor, staff, ConversationStatus, ChatConversation, ChatMessage, Threads,
}

abbrev pub conversation_key : ChatConversation → String
conversation_key c = c.id

-- [0-9a-f], in either case
abbrev pub is_hex : ℕ → Bool
is_hex c = leb b'0' c && leb c b'9' || leb b'a' c && leb c b'f' || leb b'A' c && leb c b'F'

-- The text after n such characters.
unfoldable pub after_hex : ℕ → List ℕ → Option (List ℕ)
after_hex zero cs = some cs
after_hex (suc n) [] = none
after_hex (suc n) (c ∷ cs) = let rest = after_hex n cs in if is_hex c then rest else none

abbrev pub after_hyphen : Option (List ℕ) → Option (List ℕ)
after_hyphen (some (c ∷ cs)) = if c == b'-' then some cs else none
after_hyphen _ = none

abbrev pub is_end : Option (List ℕ) → Bool
is_end (some []) = true
is_end _ = false

abbrev pub next_group : ℕ → Option (List ℕ) → Option (List ℕ)
next_group n none = none
next_group n (some cs) = after_hex n cs

-- UUID_PATTERN: groups of so many characters, with hyphens between them.
unfoldable pub is_uuid : String → Bool
is_uuid id =
    let g1 = after_hex 8 (codes id) in
    let g2 = next_group 4 (after_hyphen g1) in
    let g3 = next_group 4 (after_hyphen g2) in
    let g4 = next_group 4 (after_hyphen g3) in is_end (next_group 12 (after_hyphen g4))

abbrev pub no_conversation : String
no_conversation = "Conversation not found"

abbrev pub not_yours : String
not_yours = "This conversation belongs to someone else"

unfoldable pub require_conversation : String → Threads → Result ChatConversation
require_conversation id t =
    throw_if (not (is_uuid id)) (not_found no_conversation)
    >> or_throw (row conversation_key t.conversations id) (not_found no_conversation)

-- A visitor may only ever touch the conversation of their own key.
unfoldable pub assert_visitor_owns : String → String → Threads → Result ChatConversation
assert_visitor_owns id visitor_key t = require_conversation id t >>= λ c.
    throw_if (not (str_eq c.visitor_key visitor_key)) (forbidden not_yours) >> ok c

abbrev pub put_conversation : ChatConversation → Threads → Threads
put_conversation c t = record t { conversations = save conversation_key c t.conversations }

-- What a visitor's and an operator's message do to the counters.
unfoldable pub visitor_posted : Time → ChatConversation → ChatConversation
visitor_posted now c = record c { unread_staff = c.unread_staff + 1; last_message_at = now }

unfoldable pub staff_posted : Time → ChatConversation → ChatConversation
staff_posted now c = record c {
  unread_staff = 0;
  unread_visitor = c.unread_visitor + 1;
  last_message_at = now;
}

abbrev pub put_message : ChatMessage → Threads → Threads
put_message m t = record t { messages = m ∷ t.messages }

abbrev pub new_message : String → Time → String → ChatSender → Option String → String → ChatMessage
new_message id now conversation_id sender staff_user_id body = record {
  id = id;
  conversation_id = conversation_id;
  sender = sender;
  staff_user_id = staff_user_id;
  body = body;
  created_at = now;
}

unfoldable pub add_visitor_message :
    String → Time → String → String → String → Threads → Result Threads
add_visitor_message message_id now id visitor_key body t =
    assert_visitor_owns id visitor_key t >>= λ c. ok (
      put_conversation (visitor_posted now c)
        (put_message (new_message message_id now c.id visitor none body) t))

unfoldable pub add_staff_message :
    String → Time → String → String → String → Threads → Result Threads
add_staff_message message_id now id staff_user_id body t = require_conversation id t >>= λ c. ok (
    put_conversation (staff_posted now c)
      (put_message (new_message message_id now c.id staff (some staff_user_id) body) t))

abbrev pub is_open : ConversationStatus → Bool
is_open ConversationStatus.opened = true
is_open ConversationStatus.closed = false

abbrev pub is_open_of : String → ChatConversation → Bool
is_open_of visitor_key c = str_eq c.visitor_key visitor_key && is_open c.status

abbrev pub newer : ChatConversation → Option ChatConversation → ChatConversation
newer c none = c
newer c (some d) = if ltb c.last_message_at d.last_message_at then d else c

-- A visitor's open conversation, the newest first.
unfoldable pub newest_open : String → List ChatConversation → Option ChatConversation
newest_open visitor_key [] = none
newest_open visitor_key (c ∷ cs) =
    let rest = newest_open visitor_key cs in
    if is_open_of visitor_key c then some (newer c rest) else rest

-- A name or an address that is sent takes the place of the old one.
abbrev pub said : Option String → String → String
said sent old = let next = trim (or_empty sent) in if is_filled next then next else old

unfoldable pub identified : Option String → Option String → ChatConversation → ChatConversation
identified name email c = record c {
  visitor_name = said name c.visitor_name;
  visitor_email = said email c.visitor_email;
}

unfoldable pub new_conversation :
    String → Time → String → Option String → Option String → ChatConversation
new_conversation id now visitor_key name email = record {
  id = id;
  visitor_key = visitor_key;
  visitor_name = trim (or_empty name);
  visitor_email = trim (or_empty email);
  status = ConversationStatus.opened;
  unread_staff = 0;
  unread_visitor = 0;
  last_message_at = now;
  created_at = now;
}

unfoldable pub with_session :
    ChatConversation
    → Option String
    → Option String
    → Option ChatConversation
    → Threads
    → ChatConversation × Threads
with_session fresh name email none t = (fresh, record t { conversations = fresh ∷ t.conversations })
with_session fresh name email (some c) t =
    (identified name email c, put_conversation (identified name email c) t)

-- The visitor's open conversation, or a fresh one: one that is closed is never resumed.
unfoldable pub start_session :
    String → Time → String → Option String → Option String → Threads → ChatConversation × Threads
start_session id now visitor_key name email t =
    with_session (new_conversation id now visitor_key name email) name email
      (newest_open visitor_key t.conversations) t

abbrev pub seen : ChatConversation → ChatConversation
seen c = record c { unread_staff = 0 }

unfoldable pub mark_staff_read : String → Threads → Result Threads
mark_staff_read id t = require_conversation id t >>= λ c.
    ok (if c.unread_staff == 0 then t else put_conversation (seen c) t)

abbrev pub ended : ChatConversation → ChatConversation
ended c = record c { status = ConversationStatus.closed }

unfoldable pub close : String → Threads → Result Threads
close id t = require_conversation id t >>= λ c.
    ok (if is_open c.status then put_conversation (ended c) t else t)
