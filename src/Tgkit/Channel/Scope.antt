-- ===== src/Tgkit/Channel/Scope.antt =====
-- What the operations of tgkit/channel.go accept, and to which chat they speak.
use servekit.Prelude.{
  ◌≡◌, ◌↔◌, ◌≢◌, refl, ◌≤◌, Bool, true, false, Option, none, some, arith, ℤ, pos, ◌≤ℤ◌, Bytes,
}
use servekit.GoText.{rune_count, is_blank}
use servekit.Tgkit.Api.{Failure, Answer, Called, ok}
use servekit.Tgkit.Payments.{send_unless}
use servekit.Tgkit.Channel.{
  channel, channel_unless, ChatId, username, int_id, int64_id, other_type, validate_chat_id,
  Channel, InviteLink, ChannelSubscription, validate_invite, validate_subscription, validate_edit,
  validate_link, Request, create_invite_link, create_subscription_invite_link,
  edit_subscription_invite_link, revoke_invite_link, send_params, info, administrators,
  member_count, member, delete_message, set_title, set_description, pin_message, unpin_message,
  approve_join_request, decline_join_request,
}

-- A chat is a name that is not blank or a number other than 0.
abbrev pub IsChat : ChatId → Type 0
IsChat (username value) = is_blank value ≡ false
IsChat (int_id value) = value ≢ pos 0
IsChat (int64_id value) = value ≢ pos 0
IsChat other_type = ⊥

pub record IsInvite (invite : InviteLink) : Type 0 where
  pub name_fits : rune_count invite.name ≤ 32
  pub not_negative : pos 0 ≤ℤ invite.member_limit
  pub at_most : invite.member_limit ≤ℤ pos 99999
  pub exclusive : invite.creates_join_request ≡ true → invite.member_limit ≡ pos 0

pub record IsPaid (subscription : ChannelSubscription) : Type 0 where
  pub name_fits : rune_count subscription.name ≤ 32
  pub at_least : pos 1 ≤ℤ subscription.price_stars
  pub at_most : subscription.price_stars ≤ℤ pos 10000

IsChat-iff : (id : ChatId) → (validate_chat_id id ≡ none) ↔ IsChat id
unfolding validate_chat_id
IsChat-iff (username value) = (λ h. ground arith, λ v. ground arith)
IsChat-iff (int_id value) = (λ h z. ground arith, λ v. ground arith)
IsChat-iff (int64_id value) = (λ h z. ground arith, λ v. ground arith)
IsChat-iff other_type = (λ h. ground arith, λ v. absurd v)

IsInvite-iff : (invite : InviteLink) → (validate_invite invite ≡ none) ↔ IsInvite invite
unfolding validate_invite
IsInvite-iff invite = (
  λ h. record {
    name_fits = ground arith;
    not_negative = ground arith;
    at_most = ground arith;
    exclusive = λ e. ground arith;
  },
  λ v. ground arith,
)

subscription_iff :
    (subscription : ChannelSubscription)
    → (validate_subscription subscription ≡ none) ↔ IsPaid subscription
unfolding validate_subscription
subscription_iff subscription = (λ h. ground arith, λ v. ground arith)

edit_iff :
    (link name : Bytes)
    → (validate_edit link name ≡ none) ↔ ((is_blank link ≡ false) × (rune_count name ≤ 32))
unfolding validate_edit
edit_iff link name = (λ h. (ground arith, ground arith), λ v. ground arith)

link_iff : (link : Bytes) → (validate_link link ≡ none) ↔ (is_blank link ≡ false)
unfolding validate_link
link_iff link = (λ h. ground arith, λ v. ground arith)

-- A request for the chat of the channel was sent.
abbrev pub IsSent : {A : Type 0} → Channel → Called Request A → Type 0
IsSent c call = (r : Request) × (call.request ≡ some r) × (r.chat_id ≡ c.chat_id)

IsSent-iff :
    {A : Type 0} (c : Channel) (f : Option Failure) (api : Request → Answer A) (r : Request)
    → r.chat_id ≡ c.chat_id
    → IsSent c (send_unless f api r) ↔ (f ≡ none)
unfolding send_unless
IsSent-iff c none api r e = (λ h. refl, λ v. (r, refl, e))
IsSent-iff c (some f) api r e = (λ h. absurd (let x = h.1 in cc), λ v. absurd cc)

abbrev iff_trans : {A B C : Type 0} → (A ↔ B) → (B ↔ C) → (A ↔ C)
iff_trans f g = (λ a. g.0 (f.0 a), λ c. f.1 (g.1 c))

made_unless_iff :
    (f : Option Failure) (id : ChatId)
    → (channel_unless f id ≡ ok (record { chat_id = id })) ↔ (f ≡ none)
unfolding channel_unless
made_unless_iff none id = (λ h. refl, λ v. refl)
made_unless_iff (some f) id = (λ h. absurd cc, λ v. absurd cc)

made_iff :
    (id : ChatId) → (channel id ≡ ok (record { chat_id = id })) ↔ (validate_chat_id id ≡ none)
unfolding channel
made_iff id = made_unless_iff (validate_chat_id id) id

-- The operations on invite links send a request to the channel's own chat exactly for these
-- parameters: an invite whose name has at most 32 characters, whose member limit lies between 0 and
-- 99999, and is 0 if join requests are created; a paid link whose name has at most 32 characters and
-- whose price lies between 1 and 10000; an edit of a link that is not blank, to a name of at most 32
-- characters; the end of a link that is not blank. A channel is made exactly for a chat that is a
-- name with a visible character or a number other than 0.
pub channel_links_iff :
    {A : Type 0} (api : Request → Answer A) (c : Channel) (id : ChatId) (invite : InviteLink)
    (subscription : ChannelSubscription) (link name : Bytes)
    → (IsSent c (create_invite_link api c invite) ↔ IsInvite invite)
      × (IsSent c (create_subscription_invite_link api c subscription) ↔ IsPaid subscription)
      × (IsSent c (edit_subscription_invite_link api c link name)
          ↔ ((is_blank link ≡ false) × (rune_count name ≤ 32)))
      × (IsSent c (revoke_invite_link api c link) ↔ (is_blank link ≡ false))
      × ((channel id ≡ ok (record { chat_id = id })) ↔ IsChat id)
unfolding create_invite_link create_subscription_invite_link edit_subscription_invite_link
    revoke_invite_link
channel_links_iff api c id invite subscription link name = (
  iff_trans (IsSent-iff c (validate_invite invite) api _ refl) (IsInvite-iff invite),
  iff_trans (IsSent-iff c (validate_subscription subscription) api _ refl)
      (subscription_iff subscription),
  iff_trans (IsSent-iff c (validate_edit link name) api _ refl) (edit_iff link name),
  iff_trans (IsSent-iff c (validate_link link) api _ refl) (link_iff link),
  iff_trans (made_iff id) (IsChat-iff id),
)

-- What is sent, if something is, goes to the channel's own chat.
abbrev pub StaysIn : Channel → Option Request → Type 0
StaysIn c none = Unit
StaysIn c (some r) = r.chat_id ≡ c.chat_id

StaysIn-send_unless :
    {A : Type 0} (c : Channel) (f : Option Failure) (api : Request → Answer A) (r : Request)
    → r.chat_id ≡ c.chat_id
    → StaysIn c (send_unless f api r).request
unfolding send_unless
StaysIn-send_unless c none api r e = e
StaysIn-send_unless c (some f) api r e = tt

-- Every operation of a channel speaks to the channel's own chat, also `Send`, whatever the chat in
-- its parameters.
channel_scoped :
    {A : Type 0} (api : Request → Answer A) (checked : Request → Answer Bool) (c : Channel)
    (params : Request) (invite : InviteLink) (subscription : ChannelSubscription) (n : ℤ)
    (link name : Bytes) (b : Bool)
    → StaysIn c (send_params api c params).request
      × StaysIn c (info api c).request
      × StaysIn c (administrators api c b).request
      × StaysIn c (member_count api c).request
      × StaysIn c (member api c n).request
      × StaysIn c (create_invite_link api c invite).request
      × StaysIn c (create_subscription_invite_link api c subscription).request
      × StaysIn c (edit_subscription_invite_link api c link name).request
      × StaysIn c (revoke_invite_link api c link).request
      × StaysIn c (delete_message checked c n).request
      × StaysIn c (set_title checked c name).request
      × StaysIn c (set_description checked c name).request
      × StaysIn c (pin_message checked c n b).request
      × StaysIn c (unpin_message checked c n).request
      × StaysIn c (approve_join_request checked c n).request
      × StaysIn c (decline_join_request checked c n).request
unfolding send_params info administrators member_count member create_invite_link
    create_subscription_invite_link edit_subscription_invite_link revoke_invite_link delete_message
    set_title set_description pin_message unpin_message approve_join_request decline_join_request
channel_scoped api checked c params invite subscription n link name b = (
  refl,
  refl,
  refl,
  refl,
  refl,
  StaysIn-send_unless c (validate_invite invite) api _ refl,
  StaysIn-send_unless c (validate_subscription subscription) api _ refl,
  StaysIn-send_unless c (validate_edit link name) api _ refl,
  StaysIn-send_unless c (validate_link link) api _ refl,
  refl,
  refl,
  refl,
  refl,
  refl,
  refl,
  refl,
)
