-- ===== src/Chat/Unread.antt =====
-- chat/chat.service.ts: the messages that wait for the staff, told from the calls alone.
use mathlib.Core.Path.{subst}
use valle_web_backend.Prelude.{
  ℕ, ◌+◌, ◌≡◌, refl, sym, ap, ◌∙◌, String, some, List, [], ◌∷◌, Bool, true, false, ◌&&◌, not,
  if◌then◌else◌, str_eq, eq_iff, arith, Bool-cases, inl, inr,
}
use valle_web_backend.Prelude.Http.{
  Result, HttpError, ok, err, ◌>>=◌, ◌>>◌, throw_if, or_throw-eq-ok, not_found, forbidden, returned,
  Result-cases,
}
use valle_web_backend.Prelude.Rows.{row, save, row-save, key-row}
use valle_web_backend.Chat.{ChatConversation, Threads}
use valle_web_backend.Chat.Service.{
  conversation_key, is_uuid, no_conversation, not_yours, require_conversation, assert_visitor_owns,
}
use valle_web_backend.Chat.Files.{accepted_kind}
use valle_web_backend.Chat.Calls.{
  ChatCall, started, visitor_wrote, staff_wrote, visitor_sent, staff_sent, staff_read, staff_closed,
  after_result,
}

-- How many messages wait for an answer of the staff.
abbrev pub waiting : ChatConversation → ℕ
waiting c = c.unread_staff

abbrev pub is_ok {ℓ} : {A : Type ℓ} → Result A → Bool
is_ok (ok a) = true
is_ok (err e) = false

-- What one call does to the messages that wait in the conversation `id` of the visitor `key`: their own
-- messages and files wait, an answer clears what waits, a look clears it too, and nothing else counts.
unfoldable pub next_waiting : String → String → ℕ → ChatCall → ℕ
next_waiting id key p (started _ _ _ _ _) = p
next_waiting id key p (visitor_wrote _ _ k by _) = if str_eq k id && str_eq key by then p + 1 else p
next_waiting id key p (staff_wrote _ _ k _ _) = if str_eq k id then 0 else p
next_waiting id key p (visitor_sent _ _ _ k by f _) =
    if is_ok (accepted_kind f) then (if str_eq k id && str_eq key by then p + 1 else p) else p
next_waiting id key p (staff_sent _ _ _ k _ f _) =
    if is_ok (accepted_kind f) then (if str_eq k id then 0 else p) else p
next_waiting id key p (staff_read k) = if str_eq k id then 0 else p
next_waiting id key p (staff_closed k) = p

unfoldable pub waiting_after : String → String → ℕ → List ChatCall → ℕ
waiting_after id key p [] = p
waiting_after id key p (c ∷ cs) = waiting_after id key (next_waiting id key p c) cs

-- The conversation is there, belongs to the key and has this number waiting.
abbrev pub Counted : String → String → ℕ → Threads → Type 0
Counted id key p t =
    (c : ChatConversation) × (row conversation_key t.conversations id ≡ some c)
    × (c.visitor_key ≡ key)
    × (waiting c ≡ p)

require-row :
    (k : String) (t : Threads) (c : ChatConversation)
    → require_conversation k t ≡ ok c
    → row conversation_key t.conversations k ≡ some c
unfolding require_conversation
require-row k t c h =
    let (u, valid, h1) = returned (throw_if (not (is_uuid k)) (not_found no_conversation)) _ h in
    or_throw-eq-ok (row conversation_key t.conversations k) _ h1

and_yes : (b : Bool) → (b && not false) ≡ b
and_yes true = refl
and_yes false = refl

not-not : (b : Bool) → not (not b) ≡ b
not-not true = refl
not-not false = refl

owns-then :
    (k by : String) (t : Threads) (next : ChatConversation → Result Threads)
    → (assert_visitor_owns k by t >>= next) ≡ (
        require_conversation k t >>= λ c.
        throw_if (not (str_eq c.visitor_key by)) (forbidden not_yours) >> next c)
unfolding assert_visitor_owns
owns-then k by t next = elim (Result-cases (require_conversation k t)) [
  | inr (e, gone) ↦ rw gone refl
  | inl (c, found) ↦ elim (Bool-cases (str_eq c.visitor_key by)) [
    | inl own ↦ rw (found, own) refl
    | inr other ↦ rw (found, other) refl
  ]
]

module _ (id key : String) (known : is_uuid id ≡ true) where
  required :
      (t : Threads) (c : ChatConversation)
      → row conversation_key t.conversations id ≡ some c
      → require_conversation id t ≡ ok c
  unfolding require_conversation
  required t c there = rw (known, there) refl

  -- A call on one conversation: it finds it, may refuse the visitor, and changes its row.
  step-Counted :
      (k : String) (deny : String → Bool) (e : HttpError) (f : ChatConversation → ChatConversation)
      (g : ℕ → ℕ) (T : ChatConversation → Threads) (t : Threads) (p : ℕ)
      → ((c : ChatConversation)
          → row conversation_key t.conversations k ≡ some c
          → row conversation_key (T c).conversations id
            ≡ (if str_eq k id then some (f c) else row conversation_key t.conversations id))
      → ((c : ChatConversation)
          → ((f c).visitor_key ≡ c.visitor_key) × (waiting (f c) ≡ g (waiting c)))
      → Counted id key p t
      → Counted id key (if str_eq k id && not (deny key) then g p else p) (
          after_result t
            (require_conversation k t >>= λ c. throw_if (deny c.visitor_key) e >> ok (T c)))
  step-Counted k deny e f g T t p rows kept (c, there, mine, counted) =
      let unchanged : Counted id key p t = (c, there, mine, counted) in
      elim (Bool-cases (str_eq k id)) [
        | inl this ↦
            let same : k ≡ id = (eq_iff k id).0 this in
            let at_k : row conversation_key t.conversations k ≡ some c =
              ap (row conversation_key t.conversations) same ∙ there in
            let found : require_conversation k t ≡ ok c =
              ap (λ x. require_conversation x t) same ∙ required t c there in
            let (same_key, stepped) = kept c in
            elim (Bool-cases (deny key)) [
              | inl denied ↦ rw (this, found, denied, ap deny mine ∙ denied) unchanged
              | inr allowed ↦
                  let new_row : row conversation_key (T c).conversations id ≡ some (f c) =
                    rows c at_k
                    ∙ ap (λ b. if b then some (f c) else row conversation_key t.conversations id)
                        this in
                  rw (this, found, allowed, ap deny mine ∙ allowed)
                    (f c, new_row, same_key ∙ mine, stepped ∙ ap g counted)
            ]
        | inr other ↦ elim (Result-cases (require_conversation k t)) [
          | inr (e', gone) ↦ rw (other, gone) unchanged
          | inl (c', found) ↦ elim (Bool-cases (deny c'.visitor_key)) [
            | inl denied ↦ rw (other, found, denied) unchanged
            | inr allowed ↦
                let at_k = require-row k t c' found in
                let old_row : row conversation_key (T c').conversations id ≡ some c =
                  rows c' at_k
                  ∙ ap (λ b. if b then some (f c') else row conversation_key t.conversations id)
                      other
                  ∙ there in
                rw (other, found, allowed) (c, old_row, mine, counted)
          ]
        ]
      ]

  pub put-row :
      (k : String) (f : ChatConversation → ChatConversation) (t : Threads) (c : ChatConversation)
      → row conversation_key t.conversations k ≡ some c
      → (f c).id ≡ c.id
      → row conversation_key (save conversation_key (f c) t.conversations) id
        ≡ (if str_eq k id then some (f c) else row conversation_key t.conversations id)
  put-row k f t c there same_id =
      let at_k : (f c).id ≡ k = same_id ∙ key-row conversation_key t.conversations k c there in
      ground (arith, row-save conversation_key (f c) t.conversations id, at_k, there, eq_iff k id)

  pub kept-row :
      (k : String) (t : Threads) (c : ChatConversation)
      → row conversation_key t.conversations k ≡ some c
      → row conversation_key t.conversations id
        ≡ (if str_eq k id then some c else row conversation_key t.conversations id)
  kept-row k t c there = ground (arith, eq_iff k id)

  -- A call of the staff: nobody is refused.
  pub staff-Counted :
      (k : String) (f : ChatConversation → ChatConversation) (g : ℕ → ℕ)
      (T : ChatConversation → Threads) (t : Threads) (p : ℕ)
      → ((c : ChatConversation)
          → row conversation_key t.conversations k ≡ some c
          → row conversation_key (T c).conversations id
            ≡ (if str_eq k id then some (f c) else row conversation_key t.conversations id))
      → ((c : ChatConversation)
          → ((f c).visitor_key ≡ c.visitor_key) × (waiting (f c) ≡ g (waiting c)))
      → Counted id key p t
      → Counted id key
          (if str_eq k id then g p else p)
          (after_result t (require_conversation k t >>= λ c. ok (T c)))
  staff-Counted k f g T t p rows kept now =
      subst
        (λ b.
          Counted id key (if b then g p else p)
            (after_result t (require_conversation k t >>= λ c. ok (T c))))
        (and_yes (str_eq k id))
        (step-Counted k (λ x. false) (not_found no_conversation) f g T t p rows kept now)

  -- A call of a visitor, who may be refused.
  pub visitor-Counted :
      (k by : String) (f : ChatConversation → ChatConversation) (g : ℕ → ℕ)
      (T : ChatConversation → Threads) (t : Threads) (p : ℕ)
      → ((c : ChatConversation)
          → row conversation_key t.conversations k ≡ some c
          → row conversation_key (T c).conversations id
            ≡ (if str_eq k id then some (f c) else row conversation_key t.conversations id))
      → ((c : ChatConversation)
          → ((f c).visitor_key ≡ c.visitor_key) × (waiting (f c) ≡ g (waiting c)))
      → Counted id key p t
      → Counted id key
          (if str_eq k id && str_eq key by then g p else p)
          (after_result t (assert_visitor_owns k by t >>= λ c. ok (T c)))
  visitor-Counted k by f g T t p rows kept now =
      subst
        (λ r. Counted id key (if str_eq k id && str_eq key by then g p else p) (after_result t r))
        (sym (owns-then k by t (λ c. ok (T c))))
        (subst
          (λ b. Counted id key (if str_eq k id && b then g p else p) (
            after_result t (
              require_conversation k t >>= λ c.
              throw_if (not (str_eq c.visitor_key by)) (forbidden not_yours) >> ok (T c))))
          (not-not (str_eq key by))
          (step-Counted k (λ x. not (str_eq x by)) (forbidden not_yours) f g T t p rows kept now))
