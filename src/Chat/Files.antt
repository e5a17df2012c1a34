-- ===== src/Chat/Files.antt =====
-- chat/chat.service.ts (attachmentKind, addAttachment): a file as its own message. Characters are counted
-- where the source counts UTF-16 units, and of a type's table only its own keys are looked up.
use valle_web_backend.Prelude.{
  ℕ, zero, suc, ◌*◌, ◌==◌, String, Option, none, some, List, [], ◌∷◌, ltb, if◌then◌else◌, str_eq,
}
use valle_web_backend.Prelude.Text.{trim, concat, is_filled, split_at}
use valle_web_backend.Prelude.Upper.{lower}
use valle_web_backend.Prelude.Http.{Result, ok, bad_request, ◌>>=◌, ◌>>◌, throw_if, or_throw}
use valle_web_backend.Booking.{Time}
use valle_web_backend.Chat.{
  ChatSender, visitor, ChatAttachmentKind, image, gif, audio, file, ChatConversation,
  ChatAttachment, UploadedChatFile, Threads,
}
use valle_web_backend.Chat.Service.{
  require_conversation, assert_visitor_owns, put_conversation, visitor_posted, staff_posted,
  put_message, new_message,
}

abbrev pub attachment_max_bytes : ℕ
attachment_max_bytes = 8 * 1024 * 1024

-- ATTACHMENT_MIMES
abbrev pub attachment_mimes : List (String × ChatAttachmentKind)
attachment_mimes =
    ("image/jpeg", image)
    ∷ ("image/png", image)
    ∷ ("image/webp", image)
    ∷ ("image/heic", image)
    ∷ ("image/gif", gif)
    ∷ ("audio/webm", audio)
    ∷ ("audio/ogg", audio)
    ∷ ("audio/mpeg", audio)
    ∷ ("audio/mp4", audio)
    ∷ ("audio/x-m4a", audio)
    ∷ ("audio/wav", audio)
    ∷ ("audio/aac", audio)
    ∷ ("application/pdf", file)
    ∷ ("text/plain", file)
    ∷ ("text/csv", file)
    ∷ ("application/msword", file)
    ∷ ("application/vnd.openxmlformats-officedocument.wordprocessingml.document", file)
    ∷ ("application/vnd.ms-excel", file)
    ∷ ("application/vnd.openxmlformats-officedocument.spreadsheetml.sheet", file)
    ∷ ("application/vnd.ms-powerpoint", file)
    ∷ ("application/vnd.openxmlformats-officedocument.presentationml.presentation", file)
    ∷ []

unfoldable pub kind_in : String → List (String × ChatAttachmentKind) → Option ChatAttachmentKind
kind_in mime [] = none
kind_in mime ((m, kind) ∷ rest) =
    let other = kind_in mime rest in if str_eq m mime then some kind else other

abbrev pub first_part : List String → String
first_part [] = ""
first_part (s ∷ _) = s

unfoldable pub base_mime : String → String
base_mime mime = lower (trim (first_part (split_at b';' mime)))

unfoldable pub attachment_kind : String → Option ChatAttachmentKind
attachment_kind mime = kind_in (base_mime mime) attachment_mimes

abbrev pub type_message : String → String
type_message mime =
    concat (
      "Files of type " ∷ (if is_filled mime then mime else "unknown") ∷ " cannot be sent here" ∷ [])

-- A file that is not empty, not too large and of a known type.
unfoldable pub accepted_kind : UploadedChatFile → Result ChatAttachmentKind
accepted_kind f =
    throw_if (f.size == 0) (bad_request "No file received")
    >> throw_if (ltb attachment_max_bytes f.size) (bad_request "File too large: at most 8 MB")
    >> or_throw (attachment_kind f.mimetype) (bad_request (type_message f.mimetype))

unfoldable pub clipped : ℕ → String → String
clipped zero s = ""
clipped (suc n) String.[] = ""
clipped (suc n) (String.◌∷◌ c s) = String.◌∷◌ c (clipped n s)

abbrev pub put_attachment : ChatAttachment → Threads → Threads
put_attachment a t = record t { attachments = a ∷ t.attachments }

abbrev pub owned : ChatSender → String → String → Threads → Result ChatConversation
owned visitor id visitor_key t = assert_visitor_owns id visitor_key t
owned _ id visitor_key t = require_conversation id t

abbrev pub posted : ChatSender → Time → ChatConversation → ChatConversation
posted visitor now c = visitor_posted now c
posted _ now c = staff_posted now c

-- The message and its file, in one transaction; the caption is the message's text.
unfoldable pub add_attachment :
    String
    → String
    → Time
    → String
    → ChatSender
    → Option String
    → String
    → UploadedChatFile
    → String
    → Threads
    → Result Threads
add_attachment message_id attachment_id now id sender staff_user_id visitor_key f caption t =
    accepted_kind f >>= λ kind. owned sender id visitor_key t >>= λ c. ok (
      put_conversation (posted sender now c) (
        put_attachment
          (record {
            id = attachment_id;
            message_id = message_id;
            conversation_id = c.id;
            kind = kind;
            mime = base_mime f.mimetype;
            size = f.size;
          })
          (put_message
            (new_message message_id now c.id sender staff_user_id (clipped 2_000 (trim caption)))
            t)))
