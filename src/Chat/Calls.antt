-- ===== src/Chat/Calls.antt =====
-- chat/chat.service.ts: the calls of visitors and staff, one after the other.
use valle_web_backend.Prelude.{String, Option, none, some, List, [], ◌∷◌}
use valle_web_backend.Prelude.Http.{Result, ok, err}
use valle_web_backend.Booking.{Time}
use valle_web_backend.Chat.{visitor, staff, UploadedChatFile, Threads}
use valle_web_backend.Chat.Service.{
  start_session, add_visitor_message, add_staff_message, mark_staff_read, close,
}
use valle_web_backend.Chat.Files.{add_attachment}

-- With the keys that the database draws, the time, and what the request says.
pub data ChatCall : Type 0 where
  started :
      (id : String) (now : Time) (visitor_key : String) (name email : Option String) → ChatCall
  visitor_wrote : (message_id : String) (now : Time) (id visitor_key body : String) → ChatCall
  staff_wrote : (message_id : String) (now : Time) (id staff_user_id body : String) → ChatCall
  visitor_sent :
      (message_id attachment_id : String) (now : Time) (id visitor_key : String)
      (f : UploadedChatFile) (caption : String)
      → ChatCall
  staff_sent :
      (message_id attachment_id : String) (now : Time) (id staff_user_id : String)
      (f : UploadedChatFile) (caption : String)
      → ChatCall
  staff_read : (id : String) → ChatCall
  staff_closed : (id : String) → ChatCall

unfoldable pub run_chat_call : ChatCall → Threads → Result Threads
run_chat_call (started id now visitor_key name email) t =
    ok (start_session id now visitor_key name email t).1
run_chat_call (visitor_wrote message_id now id visitor_key body) t =
    add_visitor_message message_id now id visitor_key body t
run_chat_call (staff_wrote message_id now id staff_user_id body) t =
    add_staff_message message_id now id staff_user_id body t
run_chat_call (visitor_sent message_id attachment_id now id visitor_key f caption) t =
    add_attachment message_id attachment_id now id visitor none visitor_key f caption t
run_chat_call (staff_sent message_id attachment_id now id staff_user_id f caption) t =
    add_attachment message_id attachment_id now id staff (some staff_user_id) "" f caption t
run_chat_call (staff_read id) t = mark_staff_read id t
run_chat_call (staff_closed id) t = close id t

-- A call that throws leaves the tables.
abbrev pub after_result : Threads → Result Threads → Threads
after_result t (ok t') = t'
after_result t (err e) = t

unfoldable pub run_chat_calls : List ChatCall → Threads → Threads
run_chat_calls [] t = t
run_chat_calls (c ∷ cs) t = run_chat_calls cs (after_result t (run_chat_call c t))
