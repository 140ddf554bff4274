-- ===== src/Examples/Notices.antt =====
-- A store of feeds, and the notifications of two owned keys.
use tai_skeleton.Base.{
  suc, ◌<◌, Bool, true, false, ◌≡◌, ◌≢◌, refl, ap, Option, none, some, List, [], ◌∷◌, String, codes,
  arith, ◌==◌, ==_iff, string_eq, if◌then◌else◌, Bool-cases, inl, inr, take, lookup, Result, ok,
  ◌>>=◌,
}
use tai_skeleton.AccessControl.Policy.{str, get}
use tai_skeleton.AccessControl.Isolation.{
  Caller, clamp, clamp_write_audience, restricted_identity, acting_principal,
}
use tai_skeleton.Channels.Notifications.{
  Notification, Feed, shared, audience_feed, FeedStore, Channel, ChannelNotification, Notice, Stamp,
  stored, read_notifications, notify_user, list_notifications, persisted_audience, is_blank,
  to_sink,
}
use tai_skeleton.Channels.Notifications.Feeds.{addressed_to, record_all, read_notifications-newest}
use tai_skeleton.Channels.Notifications.Slices.{notify_user-unseen, notify_user-listed}

abbrev ann : String
ann = "ann"

abbrev bob : String
bob = "bob"

abbrev is_feed : Feed → Feed → Bool
is_feed shared shared = true
is_feed (audience_feed a) (audience_feed b) = a == b
is_feed _ _ = false

is_feed_sound : (k j : Feed) → is_feed k j ≡ true → k ≡ j
is_feed_sound shared shared h = refl
is_feed_sound (audience_feed a) (audience_feed b) h =
    let e : a ≡ b = ground (arith, h, ==_iff a b) in ap audience_feed e
is_feed_sound shared (audience_feed b) h = absurd (ground arith)
is_feed_sound (audience_feed a) shared h = absurd (ground arith)

is_feed_refl : (k : Feed) → is_feed k k ≡ true
is_feed_refl shared = refl
is_feed_refl (audience_feed a) = ground (arith, ==_iff a a)

abbrev changed :
    (List Notification → List Notification)
    → Feed
    → (Feed → List Notification)
    → Feed
    → List Notification
changed f k s j = if is_feed k j then f (s j) else s j

changed-other :
    (f : List Notification → List Notification) (k j : Feed) (s : Feed → List Notification)
    → k ≢ j
    → changed f k s j ≡ s j
changed-other f k j s n = elim (Bool-cases (is_feed k j)) [
  | inl e ↦ absurd (n (is_feed_sound k j e))
  | inr e ↦ rw e refl
]

abbrev lists : FeedStore
lists = record {
  Store = Feed → List Notification;
  lrange = λ k s. s k;
  lpush = λ k x s. changed (λ l. x ∷ l) k s;
  ltrim = λ k stop s. changed (take (suc stop)) k s;
  lpush_range = λ k x s. rw (is_feed_refl k) refl;
  lpush_others = λ k j x s n. changed-other (λ l. x ∷ l) k j s n;
  ltrim_range = λ k stop s. rw (is_feed_refl k) refl;
  ltrim_others = λ k j stop s n. changed-other (take (suc stop)) k j s n;
}

abbrev no_feeds : Feed → List Notification
no_feeds k = []

abbrev to_ann : Notification
to_ann = record {
  id = "n1";
  message = codes "hello";
  recipient = none;
  audience = some ann;
  created_at = "09:00";
}

abbrev to_all : Notification
to_all = record {
  id = "n2";
  message = codes "lunch";
  recipient = none;
  audience = none;
  created_at = "12:00";
}

room_for_two : 0 < 2
room_for_two = omega arith

read_notifications-newest_example :
    (read_notifications lists 2 none
        (record_all lists 2 room_for_two (to_all ∷ to_all ∷ to_ann ∷ []) no_feeds)
      ≡ take 2 (to_all ∷ to_all ∷ to_ann ∷ []))
    × (read_notifications lists 2
          (some ann)
          (record_all lists 2 room_for_two (to_all ∷ to_all ∷ to_ann ∷ []) no_feeds)
        ≡ take 2 (addressed_to ann (to_all ∷ to_all ∷ to_ann ∷ [])))
read_notifications-newest_example =
    read_notifications-newest lists 2 room_for_two ann (to_all ∷ to_all ∷ to_ann ∷ []) no_feeds refl
      refl

abbrev key_of_ann : Caller
key_of_ann = record {
  execution_identity = none;
  current_user_id = some ann;
  request_claims = some (("owner", str "boss") ∷ []);
}

abbrev key_of_bob : Caller
key_of_bob = record {
  execution_identity = some (record { user_id = bob; claims = ("owner", str "boss") ∷ [] });
  current_user_id = some ann;
  request_claims = none;
}

abbrev done : Notice
done = record {
  message = codes "done";
  channel = none;
  recipient = none;
  audience = none;
  media = none;
  template = none;
}

abbrev noon : Stamp
noon = record { id = "n3"; created_at = "12:01" }

abbrev no_channels : String → Option Channel
no_channels name = none

abbrev any_send : ChannelNotification → Result (Unit {0})
any_send n = ok tt

key_of_ann-own : restricted_identity "owner" key_of_ann ≡ ok (some ann)
unfolding restricted_identity acting_principal get lookup
key_of_ann-own = refl

key_of_bob-own : restricted_identity "owner" key_of_bob ≡ ok (some bob)
unfolding restricted_identity acting_principal get lookup
key_of_bob-own = refl

ann-other_bob : ann ≢ bob
ann-other_bob e = absurd (ground (arith, e, ==_iff ann bob))

notify_user-unseen_example :
    list_notifications lists 2 "owner" key_of_bob
      (notify_user lists 2 "owner" no_channels any_send key_of_ann done noon no_feeds).1
    ≡ list_notifications lists 2 "owner" key_of_bob no_feeds
notify_user-unseen_example =
    notify_user-unseen lists 2 room_for_two "owner" no_channels any_send key_of_ann key_of_bob ann
      bob done noon no_feeds key_of_ann-own key_of_bob-own ann-other_bob

ann_notifies :
    (notify_user lists 2 "owner" no_channels any_send key_of_ann done noon no_feeds).0 ≡ ok []
unfolding notify_user persisted_audience is_blank clamp_write_audience restricted_identity
    acting_principal get lookup clamp to_sink
ann_notifies = refl

notify_user-listed_example :
    list_notifications lists 2 "owner" key_of_ann
      (notify_user lists 2 "owner" no_channels any_send key_of_ann done noon no_feeds).1
    ≡ (list_notifications lists 2 "owner" key_of_ann no_feeds >>= λ listed.
        ok (take 2 (stored done (some ann) noon ∷ listed)))
notify_user-listed_example =
    notify_user-listed lists 2 room_for_two "owner" no_channels any_send key_of_ann ann done noon
      no_feeds [] key_of_ann-own ann_notifies
