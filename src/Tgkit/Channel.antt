-- ===== src/Tgkit/Channel.antt =====
-- tgkit/channel.go: the operations of a `Channel`. The client of the Bot API is a parameter.
pub mod Scope
use servekit.Prelude.{
  ℕ, Bool, true, false, not, ◌&&◌, ◌||◌, Option, none, some, ltb, if◌then◌else◌, ℤ, pos, ltb_ℤ,
  is_zero_ℤ, Bytes,
}
use servekit.GoText.{rune_count, is_blank}
use servekit.Tgkit.Api.{
  Failure, subscription_name, subscription_price, invite_name, invite_members, invite_exclusive,
  invite_empty, chat_id_empty, chat_id_zero, chat_id_type, TgError, failure, Result, ok, err,
  Answer, Called, refuse, send, send_checked,
}
use servekit.Tgkit.Invoice.{period_seconds, max_stars_subscription_price}
use servekit.Tgkit.Payments.{send_unless}

abbrev pub max_invite_link_name_length : ℕ
max_invite_link_name_length = 32

abbrev pub max_invite_link_members : ℤ
max_invite_link_members = pos 99999

-- A value of type `any` by its dynamic type.
pub data ChatId : Type 0 where
  username : Bytes → ChatId
  int_id : ℤ → ChatId
  int64_id : ℤ → ChatId
  other_type : ChatId

unfoldable pub validate_chat_id : ChatId → Option Failure
validate_chat_id (username value) = if is_blank value then some chat_id_empty else none
validate_chat_id (int_id value) = if is_zero_ℤ value then some chat_id_zero else none
validate_chat_id (int64_id value) = if is_zero_ℤ value then some chat_id_zero else none
validate_chat_id other_type = some chat_id_type

-- The client is passed to each operation instead.
pub record Channel : Type 0 where
  pub chat_id : ChatId

unfoldable pub channel_unless : Option Failure → ChatId → Result Channel
channel_unless none chat_id = ok (record { chat_id = chat_id })
channel_unless (some f) chat_id = err (failure f)

unfoldable pub channel : ChatId → Result Channel
unfolding channel_unless
channel chat_id = channel_unless (validate_chat_id chat_id) chat_id

pub record InviteLink : Type 0 where
  pub name : Bytes
  -- the Unix time of `ExpireAt`, unless that is the zero time
  pub expire_at : Option ℤ
  pub member_limit : ℤ
  pub creates_join_request : Bool

pub record ChannelSubscription : Type 0 where
  pub name : Bytes
  pub price_stars : ℤ

unfoldable pub validate_invite : InviteLink → Option Failure
validate_invite invite =
    if ltb max_invite_link_name_length (rune_count invite.name)
    then some invite_name
    else if ltb_ℤ invite.member_limit (pos 0) || ltb_ℤ max_invite_link_members invite.member_limit
    then some invite_members
    else if invite.creates_join_request && not (is_zero_ℤ invite.member_limit)
    then some invite_exclusive
    else none

unfoldable pub validate_subscription : ChannelSubscription → Option Failure
validate_subscription subscription =
    if ltb max_invite_link_name_length (rune_count subscription.name)
    then some subscription_name
    else if ltb_ℤ subscription.price_stars (pos 1)
        || ltb_ℤ max_stars_subscription_price subscription.price_stars
    then some subscription_price
    else none

-- The check of the link and the name in `EditSubscriptionInviteLink`.
unfoldable pub validate_edit : Bytes → Bytes → Option Failure
validate_edit invite_link name =
    if is_blank invite_link
    then some invite_empty
    else if ltb max_invite_link_name_length (rune_count name)
    then some invite_name
    else none

unfoldable pub validate_link : Bytes → Option Failure
validate_link invite_link = if is_blank invite_link then some invite_empty else none

-- The requests that a channel sends, without the chat.
pub data Action : Type 0 where
  delete_message_of : ℤ → Action
  title_of : Bytes → Action
  description_of : Bytes → Action
  pin_of : ℤ → Bool → Action
  unpin_of : ℤ → Action
  get_chat : Action
  get_administrators : Bool → Action
  get_member_count : Action
  get_member : ℤ → Action
  -- the name, the expiry date or 0, the member limit, whether to create join requests
  invite_of : Bytes → ℤ → ℤ → Bool → Action
  -- the name, the period and the price
  subscription_of : Bytes → ℤ → ℤ → Action
  edit_of : Bytes → Bytes → Action
  revoke_of : Bytes → Action
  approve_of : ℤ → Action
  decline_of : ℤ → Action
  -- a message, by its other parameters
  message_of : ℕ → Action

pub record Request : Type 0 where
  pub chat_id : ChatId
  pub action : Action

-- Send: `chat_in_params` is the ID in the parameters, which is overwritten.
unfoldable pub overwrite_chat : Channel → Request → Request
overwrite_chat c params = record params { chat_id = c.chat_id }

unfoldable pub expire_date : Option ℤ → ℤ
expire_date none = pos 0
expire_date (some t) = t

module _ {A : Type 0} (api : Request → Answer A) (c : Channel) where
  unfoldable pub send_params : Request → Called Request A
  unfolding overwrite_chat
  send_params params = send api (overwrite_chat c params)

  unfoldable pub info : Called Request A
  info = send api (record { chat_id = c.chat_id; action = get_chat })

  unfoldable pub administrators : Bool → Called Request A
  administrators include_bots =
      send api (record { chat_id = c.chat_id; action = get_administrators include_bots })

  unfoldable pub member_count : Called Request A
  member_count = send api (record { chat_id = c.chat_id; action = get_member_count })

  unfoldable pub member : ℤ → Called Request A
  member user_id = send api (record { chat_id = c.chat_id; action = get_member user_id })

  unfoldable pub create_invite_link : InviteLink → Called Request A
  unfolding send_unless expire_date
  create_invite_link invite = send_unless (validate_invite invite) api (record {
    chat_id = c.chat_id;
    action =
        invite_of invite.name (expire_date invite.expire_at) invite.member_limit
          invite.creates_join_request;
  })

  unfoldable pub create_subscription_invite_link : ChannelSubscription → Called Request A
  unfolding send_unless
  create_subscription_invite_link subscription =
      send_unless (validate_subscription subscription) api (record {
        chat_id = c.chat_id;
        action = subscription_of subscription.name period_seconds subscription.price_stars;
      })

  unfoldable pub edit_subscription_invite_link : Bytes → Bytes → Called Request A
  unfolding send_unless
  edit_subscription_invite_link invite_link name =
      send_unless (validate_edit invite_link name) api
        (record { chat_id = c.chat_id; action = edit_of invite_link name })

  unfoldable pub revoke_invite_link : Bytes → Called Request A
  unfolding send_unless
  revoke_invite_link invite_link =
      send_unless (validate_link invite_link) api
        (record { chat_id = c.chat_id; action = revoke_of invite_link })

-- The operations whose answer is a Boolean.
module _ (api : Request → Answer Bool) (c : Channel) where
  unfoldable pub delete_message : ℤ → Called Request (Unit {0})
  delete_message message_id =
      send_checked api (record { chat_id = c.chat_id; action = delete_message_of message_id })

  unfoldable pub set_title : Bytes → Called Request (Unit {0})
  set_title title = send_checked api (record { chat_id = c.chat_id; action = title_of title })

  unfoldable pub set_description : Bytes → Called Request (Unit {0})
  set_description description =
      send_checked api (record { chat_id = c.chat_id; action = description_of description })

  unfoldable pub pin_message : ℤ → Bool → Called Request (Unit {0})
  pin_message message_id silent =
      send_checked api (record { chat_id = c.chat_id; action = pin_of message_id silent })

  unfoldable pub unpin_message : ℤ → Called Request (Unit {0})
  unpin_message message_id =
      send_checked api (record { chat_id = c.chat_id; action = unpin_of message_id })

  unfoldable pub approve_join_request : ℤ → Called Request (Unit {0})
  approve_join_request user_id =
      send_checked api (record { chat_id = c.chat_id; action = approve_of user_id })

  unfoldable pub decline_join_request : ℤ → Called Request (Unit {0})
  decline_join_request user_id =
      send_checked api (record { chat_id = c.chat_id; action = decline_of user_id })
