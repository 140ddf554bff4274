-- ===== src/Channels/Notifications.antt =====
-- channels/notify.py, channels/notifications_sink.py and list_notifications of
-- operations/notifications.py. The Redis lists are a parameter with the documented behaviour of
-- LPUSH, LTRIM and LRANGE, as are the channels and the contract's validation of what they are sent. A
-- stored record is its value, for the JSON text that is stored; a failing Redis is left out.
pub mod Feeds
pub mod Slices
use tai_skeleton.Base.{
  ℕ, suc, ◌-◌, Bool, true, false, ◌&&◌, ◌||◌, not, Option, none, some, List, [], ◌∷◌, String, Text,
  codes, ◌≡◌, ◌≢◌, leb, eqb, take, is_empty, if◌then◌else◌, Exc, Result, ok, raise, value_error,
  not_implemented_error, ◌>>=◌, ◌>>◌, raise_if, or_raise, require,
}
use tai_skeleton.AccessControl.Policy.{Value}
use tai_skeleton.AccessControl.Isolation.{Caller, clamp_write_audience, request_identity}

pub record Notification : Type 0 where
  pub id : String
  pub message : Text
  pub recipient : Option String
  pub audience : Option String
  pub created_at : String

-- The keys of the feeds, under the prefix of the deployment.
pub data Feed : Type 0 where
  shared : Feed
  audience_feed : String → Feed

-- LPUSH puts a record in front of a list, LTRIM from 0 to `stop` keeps the records up to that index,
-- LRANGE from 0 to -1 is the whole list; each is about the list at its key only.
pub record FeedStore : Type 1 where
  pub Store : Type 0
  pub lrange : Feed → Store → List Notification
  pub lpush : Feed → Notification → Store → Store
  pub ltrim : Feed → ℕ → Store → Store
  pub lpush_range :
      (k : Feed) (x : Notification) (s : Store) → lrange k (lpush k x s) ≡ x ∷ lrange k s
  pub lpush_others :
      (k j : Feed) (x : Notification) (s : Store) → k ≢ j → lrange j (lpush k x s) ≡ lrange j s
  pub ltrim_range :
      (k : Feed) (stop : ℕ) (s : Store) → lrange k (ltrim k stop s) ≡ take (suc stop) (lrange k s)
  pub ltrim_others :
      (k j : Feed) (stop : ℕ) (s : Store) → k ≢ j → lrange j (ltrim k stop s) ≡ lrange j s

pub record ChannelNotification : Type 0 where
  pub message : Text
  pub recipient : Option String
  pub media : Option (List Value)
  pub template : Option Value

pub record Channel : Type 0 where
  pub supports_media_notifications : Bool
  pub supports_template_notifications : Bool
  pub notify : ChannelNotification → Result (Option (List String))

-- The arguments of notify_user.
pub record Notice : Type 0 where
  pub message : Text
  pub channel : Option String
  pub recipient : Option String
  pub audience : Option String
  pub media : Option (List Value)
  pub template : Option Value

-- What the sink mints: the id and the time.
pub record Stamp : Type 0 where
  pub id : String
  pub created_at : String

abbrev is_white : ℕ → Bool
is_white c =
    (leb 9 c && leb c 13)
    || ((leb 28 c && leb c 32)
        || (eqb c 0x85
            || (eqb c 0xA0
                || (eqb c 0x1680
                    || ((leb 0x2000 c && leb c 0x200A)
                        || (eqb c 0x2028
                            || (eqb c 0x2029
                                || (eqb c 0x202F || (eqb c 0x205F || eqb c 0x3000)))))))))

-- not text.strip()
unfoldable pub is_blank : Text → Bool
is_blank [] = true
is_blank (c ∷ s) = let rest = is_blank s in is_white c && rest

abbrev pub is_blank_text : Option String → Bool
is_blank_text none = false
is_blank_text (some s) = is_blank (codes s)

abbrev pub is_given {ℓ} : {A : Type ℓ} → Option A → Bool
is_given none = false
is_given (some a) = true

abbrev pub stored : Notice → Option String → Stamp → Notification
stored n audience stamp = record {
  id = stamp.id;
  message = n.message;
  recipient = n.recipient;
  audience = audience;
  created_at = stamp.created_at;
}

-- the ids that the medium assigned
abbrev outbound_ids : Option (List String) → List String
outbound_ids none = []
outbound_ids (some ids) = ids

module _ (owner_claim : String) where
  -- the audience that the call persists
  unfoldable pub persisted_audience : Caller → Notice → Result (Option String)
  persisted_audience caller n = do
    raise_if (is_blank n.message) value_error
    raise_if (is_blank_text n.audience) value_error
    clamp_write_audience owner_claim caller n.audience

module _ (channels : String → Option Channel)
    (validated : ChannelNotification → Result (Unit {0})) where
  unfoldable pub resolve_channel : String → Result Channel
  resolve_channel name = do
    raise_if (is_empty (codes name)) value_error
    require (channels name) value_error

  -- the channel and what it is to send, if it can send it
  unfoldable pub rich_send : String → Notice → Result (Channel × ChannelNotification)
  rich_send name n = do
    channel ← resolve_channel name
    raise_if (is_given n.media && not channel.supports_media_notifications) not_implemented_error
    raise_if (is_given n.template && not channel.supports_template_notifications)
        not_implemented_error
    let sent : ChannelNotification = record {
      message = n.message;
      recipient = n.recipient;
      media = n.media;
      template = n.template;
    }
    validated sent
    ok (channel, sent)

module _ (redis : FeedStore) (feed_max : ℕ) where
  unfoldable pub push_bounded : Feed → Notification → redis.Store → redis.Store
  push_bounded key payload s = redis.ltrim key (feed_max - 1) (redis.lpush key payload s)

  -- if audience is not None: the identity's own feed too
  unfoldable pub push_addressed : Option String → Notification → redis.Store → redis.Store
  push_addressed none n s = s
  push_addressed (some who) n s = push_bounded (audience_feed who) n s

  -- NotificationSink.record, of a record that has its id and time
  unfoldable pub record_notification : Notification → redis.Store → redis.Store
  record_notification n s = push_addressed n.audience n (push_bounded shared n s)

  unfoldable pub read_notifications : Option String → redis.Store → List Notification
  read_notifications none s = redis.lrange shared s
  read_notifications (some who) s = redis.lrange (audience_feed who) s

  -- without a channel: the internal sink
  unfoldable pub to_sink :
      Notice → Option String → Stamp → redis.Store → Result (List String) × redis.Store
  to_sink n audience stamp s =
      if is_given n.media || is_given n.template
      then (raise value_error, s)
      else if is_blank_text n.recipient
      then (raise value_error, s)
      else (ok [], record_notification (stored n audience stamp) s)

  module _ (channels : String → Option Channel)
      (validated : ChannelNotification → Result (Unit {0})) where
    -- on a named channel: an addressed message is recorded before it is sent, and stays if that fails
    unfoldable pub to_channel :
        String → Notice → Option String → Stamp → redis.Store → Result (List String) × redis.Store
    to_channel name n audience stamp s = elim (rich_send channels validated name n) [
      | raise x ↦ (raise x, s)
      | ok (channel, sent) ↦
          let answer : Result (List String) =
            channel.notify sent >>= λ ids. ok (outbound_ids ids) in
          elim audience [
            | none ↦ (answer, s)
            | some who ↦ (answer, record_notification (stored n (some who) stamp) s)
          ]
    ]

  module _ (owner_claim : String) where
    unfoldable pub list_notifications : Caller → redis.Store → Result (List Notification)
    list_notifications caller s = do
      identity ← request_identity owner_claim caller
      ok (read_notifications identity.1 s)

  module _ (owner_claim : String) (channels : String → Option Channel)
      (validated : ChannelNotification → Result (Unit {0})) where
    -- notify_user of channels/notify.py
    unfoldable pub notify_user :
        Caller → Notice → Stamp → redis.Store → Result (List String) × redis.Store
    notify_user caller n stamp s = elim (persisted_audience owner_claim caller n) [
      | raise x ↦ (raise x, s)
      | ok audience ↦ elim n.channel [
        | none ↦ to_sink n audience stamp s
        | some name ↦ to_channel channels validated name n audience stamp s
      ]
    ]
