-- ===== src/Chat.antt =====
-- chat/chat.service.ts with entities/chat-conversation.entity.ts, chat-message.entity.ts and
-- chat-attachment.entity.ts: the threads of visitors and staff. The socket gateway, the lists and the
-- views of messages are left out, and with them a thread's subject and assignee, a file's name and bytes.
pub mod Service
pub mod Files
pub mod Calls
pub mod Unread
pub mod Backlog
pub mod Run
mod Tests
use valle_web_backend.Prelude.{ℕ, String, Option, List}
use valle_web_backend.Booking.{Time}

pub data ChatSender : Type 0 where
  visitor staff system : ChatSender

pub data ConversationStatus : Type 0 where
  opened closed : ConversationStatus

pub data ChatAttachmentKind : Type 0 where
  image gif audio file : ChatAttachmentKind

pub record ChatConversation : Type 0 where
  pub id : String
  pub visitor_key : String
  pub visitor_name : String
  pub visitor_email : String
  pub status : ConversationStatus
  pub unread_staff : ℕ
  pub unread_visitor : ℕ
  pub last_message_at : Time
  pub created_at : Time

pub record ChatMessage : Type 0 where
  pub id : String
  pub conversation_id : String
  pub sender : ChatSender
  pub staff_user_id : Option String
  pub body : String
  pub created_at : Time

pub record ChatAttachment : Type 0 where
  pub id : String
  pub message_id : String
  pub conversation_id : String
  pub kind : ChatAttachmentKind
  pub mime : String
  pub size : ℕ

-- What the browser uploads: its declared type, and the number of its bytes.
pub record UploadedChatFile : Type 0 where
  pub mimetype : String
  pub size : ℕ

pub record Threads : Type 0 where
  pub conversations : List ChatConversation
  pub messages : List ChatMessage
  pub attachments : List ChatAttachment
