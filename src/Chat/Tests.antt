-- ===== src/Chat/Tests.antt =====
-- chat/chat.service.ts: a small thread, and the theorem at it.
use valle_web_backend.Prelude.{◌≡◌, refl, String, List, [], ◌∷◌, true}
use valle_web_backend.Prelude.Text.{trim, split_at}
use valle_web_backend.Prelude.Upper.{lower}
use valle_web_backend.Prelude.Rows.{row}
use valle_web_backend.Chat.{ConversationStatus, UploadedChatFile, Threads}
use valle_web_backend.Chat.Service.{is_uuid, after_hex}
use valle_web_backend.Chat.Calls.{
  ChatCall, visitor_wrote, staff_wrote, visitor_sent, staff_closed, run_chat_calls,
}
use valle_web_backend.Chat.Unread.{next_waiting, waiting_after, Counted}
use valle_web_backend.Chat.Run.{HasKeys, AreFreshCalls, run_chat_calls-Counted}
use valle_web_backend.Chat.Files.{accepted_kind, attachment_kind, base_mime, kind_in}

abbrev thread_id : String
thread_id = "0f8fad5b-d9cd-469f-a165-70867728950e"

abbrev one_thread : Threads
one_thread = record {
  conversations =
      record {
        id = thread_id;
        visitor_key = "v1";
        visitor_name = "";
        visitor_email = "";
        status = ConversationStatus.opened;
        unread_staff = 2;
        unread_visitor = 0;
        last_message_at = 1;
        created_at = 1;
      }
      ∷ [];
  messages = [];
  attachments = [];
}

abbrev a_photo : UploadedChatFile
a_photo = record { mimetype = "image/PNG; q=1"; size = 900 }

-- An answer, a message of somebody else, one of the visitor's and their photo.
abbrev some_calls : List ChatCall
some_calls =
    staff_wrote "m1" 2 thread_id "s1" "hello"
    ∷ visitor_wrote "m2" 3 thread_id "v2" "not mine"
    ∷ visitor_wrote "m3" 4 thread_id "v1" "hi"
    ∷ visitor_sent "m4" "a1" 5 thread_id "v1" a_photo " look "
    ∷ staff_closed thread_id
    ∷ []

known_id : is_uuid thread_id ≡ true
unfolding is_uuid after_hex
known_id = refl

two_wait : waiting_after thread_id "v1" 2 some_calls ≡ 2
unfolding waiting_after next_waiting accepted_kind attachment_kind base_mime kind_in trim split_at
    lower
two_wait = refl

calls-AreFresh : AreFreshCalls some_calls one_thread
unfolding AreFreshCalls
calls-AreFresh = (tt, (tt, (tt, (tt, (tt, tt)))))

one_key : HasKeys one_thread
unfolding row
one_key = (refl, tt)

is_there : Counted thread_id "v1" 2 one_thread
unfolding row
is_there = (_, refl, refl, refl)

run_chat_calls-Counted_example :
    Counted thread_id "v1"
      (waiting_after thread_id "v1" 2 some_calls)
      (run_chat_calls some_calls one_thread)
run_chat_calls-Counted_example =
    run_chat_calls-Counted thread_id "v1" some_calls one_thread 2 known_id one_key calls-AreFresh
      is_there
