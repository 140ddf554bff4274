-- ===== src/Channels/Notifications/Slices.antt =====
-- The slices of the identities: what an owned key can write and read.
use tai_skeleton.Base.{
  ℕ, ◌<◌, true, false, ◌||◌, ◌≡◌, ◌≢◌, inl, inr, refl, ap, sym, subst, ◌∙◌, Option, none, some,
  List, ◌∷◌, String, arith, ◌==◌, ==_iff, string_eq, take, Bool-cases, Option-cases, Result-cases,
  Exc, Result, ok, raise, ◌>>=◌, >>=-eq-ok, raise_if, value_error,
}
use tai_skeleton.AccessControl.Isolation.{
  Caller, restricted_identity, clamp, clamp_write_audience, request_identity,
}
use tai_skeleton.Channels.Notifications.{
  audience_feed, FeedStore, Channel, ChannelNotification, Notice, Stamp, read_notifications,
  persisted_audience, stored, to_sink, to_channel, rich_send, notify_user, list_notifications,
  is_blank, is_blank_text, is_given,
}
use tai_skeleton.Channels.Notifications.Feeds.{
  is_for, record_notification-own, record_notification-others,
}

clamp-own :
    (own : String) (audience : Option String) {a : Option String}
    → clamp (some own) audience ≡ ok a
    → a ≡ some own
unfolding clamp
clamp-own own none h = cc
clamp-own own (some b) h = elim (Bool-cases (b == own)) [
  | inl e ↦
      let same : b ≡ own = ground (arith, e, ==_iff b own) in
      let kept : ok (some b) ≡ _ = rw e at h in cc
  | inr e ↦ let denied : raise _ ≡ _ = rw e at h in cc
]

raise-not_ok : {A : Type 0} {x : Exc} {a : A} → raise x ≢ ok a
raise-not_ok e = cc

module _ (redis : FeedStore) (feed_max : ℕ) (room : 0 < feed_max) (owner_claim : String)
    (channels : String → Option Channel) (validated : ChannelNotification → Result (Unit {0})) where
  persisted_audience-own :
      (caller : Caller) (own : String) (n : Notice) (a : Option String)
      → restricted_identity owner_claim caller ≡ ok (some own)
      → persisted_audience owner_claim caller n ≡ ok a
      → a ≡ some own
  unfolding persisted_audience clamp_write_audience
  persisted_audience-own caller own n a r h =
      let (_, _, h1) = >>=-eq-ok (raise_if (is_blank n.message) value_error) _ h in
      let (_, _, h2) = >>=-eq-ok (raise_if (is_blank_text n.audience) value_error) _ h1 in
      let (o, ho, h3) =
        >>=-eq-ok (restricted_identity owner_claim caller) (λ own. clamp own n.audience) h2 in
      let same : o ≡ some own = cc in
      clamp-own own n.audience (subst (λ o. clamp o n.audience ≡ ok a) same h3)

  list_notifications-own :
      (caller : Caller) (own : String) (s : redis.Store)
      → restricted_identity owner_claim caller ≡ ok (some own)
      → list_notifications redis feed_max owner_claim caller s
        ≡ ok (redis.lrange (audience_feed own) s)
  unfolding list_notifications request_identity read_notifications
  list_notifications-own caller own s r = rw r refl

  module _ (caller : Caller) (own : String)
      (r : restricted_identity owner_claim caller ≡ ok (some own)) where
    to_sink-others :
        (n : Notice) (stamp : Stamp) (s : redis.Store) (who : String)
        → own ≢ who
        → redis.lrange (audience_feed who) (to_sink redis feed_max n (some own) stamp s).1
          ≡ redis.lrange (audience_feed who) s
    unfolding to_sink
    to_sink-others n stamp s who d =
        let out : is_for who (some own) ≡ false = ground (arith, d, ==_iff own who) in
        let kept =
          record_notification-others redis feed_max room (stored n (some own) stamp) who s out in
        elim (Bool-cases (is_given n.media || is_given n.template)) [
          | inl e ↦ rw (e, to_sink) refl
          | inr e ↦ elim (Bool-cases (is_blank_text n.recipient)) [
            | inl b ↦ rw (e, to_sink) (rw b refl)
            | inr b ↦ rw (e, to_sink) (rw b kept)
          ]
        ]

    to_channel-others :
        (name : String) (n : Notice) (stamp : Stamp) (s : redis.Store) (who : String)
        → own ≢ who
        → redis.lrange
            (audience_feed who)
            (to_channel redis feed_max channels validated name n (some own) stamp s).1
          ≡ redis.lrange (audience_feed who) s
    unfolding to_channel
    to_channel-others name n stamp s who d =
        let out : is_for who (some own) ≡ false = ground (arith, d, ==_iff own who) in
        let kept =
          record_notification-others redis feed_max room (stored n (some own) stamp) who s out in
        elim (Result-cases (rich_send channels validated name n)) [
          | inr (x, e) ↦ rw (e, to_channel) refl
          | inl (sent, e) ↦ rw (e, to_channel) kept
        ]

    -- a notification of an owned key reaches no feed of another identity
    notify_user-others :
        (n : Notice) (stamp : Stamp) (s : redis.Store) (who : String)
        → own ≢ who
        → redis.lrange
            (audience_feed who)
            (notify_user redis feed_max owner_claim channels validated caller n stamp s).1
          ≡ redis.lrange (audience_feed who) s
    unfolding notify_user
    notify_user-others n stamp s who d =
        elim (Result-cases (persisted_audience owner_claim caller n)) [
          | inr (x, e) ↦ rw (e, notify_user) refl
          | inl (a, e) ↦
              let same : a ≡ some own = persisted_audience-own caller own n a r e in
              let e' : persisted_audience owner_claim caller n ≡ ok (some own) = e ∙ ap ok same in
              elim (Option-cases n.channel) [
                | inl c ↦ rw (e', notify_user) (rw c (to_sink-others n stamp s who d))
                | inr (name, c) ↦
                    rw (e', notify_user) (rw c (to_channel-others name n stamp s who d))
              ]
        ]

    to_sink-heads :
        (n : Notice) (stamp : Stamp) (s : redis.Store) {ids : List String}
        → (to_sink redis feed_max n (some own) stamp s).0 ≡ ok ids
        → redis.lrange (audience_feed own) (to_sink redis feed_max n (some own) stamp s).1
          ≡ take feed_max (stored n (some own) stamp ∷ redis.lrange (audience_feed own) s)
    unfolding to_sink
    to_sink-heads n stamp s h =
        let mine : is_for own (some own) ≡ true = ground (arith, ==_iff own own) in
        let head =
          record_notification-own redis feed_max room (stored n (some own) stamp) own s mine in
        elim (Bool-cases (is_given n.media || is_given n.template)) [
          | inl e ↦ absurd (raise-not_ok (rw (e, to_sink) at h))
          | inr e ↦ elim (Bool-cases (is_blank_text n.recipient)) [
            | inl b ↦ absurd (raise-not_ok (rw (e, b, to_sink) at h))
            | inr b ↦ rw (e, to_sink) (rw b head)
          ]
        ]

    to_channel-heads :
        (name : String) (n : Notice) (stamp : Stamp) (s : redis.Store) {ids : List String}
        → (to_channel redis feed_max channels validated name n (some own) stamp s).0 ≡ ok ids
        → redis.lrange
            (audience_feed own)
            (to_channel redis feed_max channels validated name n (some own) stamp s).1
          ≡ take feed_max (stored n (some own) stamp ∷ redis.lrange (audience_feed own) s)
    unfolding to_channel
    to_channel-heads name n stamp s h =
        let mine : is_for own (some own) ≡ true = ground (arith, ==_iff own own) in
        let head =
          record_notification-own redis feed_max room (stored n (some own) stamp) own s mine in
        elim (Result-cases (rich_send channels validated name n)) [
          | inl (sent, e) ↦ rw (e, to_channel) head
          | inr (x, e) ↦ absurd (raise-not_ok (rw (e, to_channel) at h))
        ]

    notify_user-heads :
        (n : Notice) (stamp : Stamp) (s : redis.Store) {ids : List String}
        → (notify_user redis feed_max owner_claim channels validated caller n stamp s).0 ≡ ok ids
        → redis.lrange
            (audience_feed own)
            (notify_user redis feed_max owner_claim channels validated caller n stamp s).1
          ≡ take feed_max (stored n (some own) stamp ∷ redis.lrange (audience_feed own) s)
    unfolding notify_user
    notify_user-heads n stamp s h = elim (Result-cases (persisted_audience owner_claim caller n)) [
      | inr (x, e) ↦ absurd (raise-not_ok (rw (e, notify_user) at h))
      | inl (a, e) ↦
          let same : a ≡ some own = persisted_audience-own caller own n a r e in
          let e' : persisted_audience owner_claim caller n ≡ ok (some own) = e ∙ ap ok same in
          elim (Option-cases n.channel) [
            | inl c ↦
                rw (e', notify_user) (rw c (to_sink-heads n stamp s (rw (e', c, notify_user) at h)))
            | inr (name, c) ↦
                rw (e', notify_user)
                  (rw c (to_channel-heads name n stamp s (rw (e', c, notify_user) at h)))
          ]
    ]

  -- What an owned key notifies, accepted or refused, on a channel or without one, leaves what another
  -- owned key lists as it is.
  pub notify_user-unseen :
      (writer reader : Caller) (own other : String) (n : Notice) (stamp : Stamp) (s : redis.Store)
      → restricted_identity owner_claim writer ≡ ok (some own)
      → restricted_identity owner_claim reader ≡ ok (some other)
      → own ≢ other
      → list_notifications redis feed_max owner_claim reader
          (notify_user redis feed_max owner_claim channels validated writer n stamp s).1
        ≡ list_notifications redis feed_max owner_claim reader s
  notify_user-unseen writer reader own other n stamp s w r d =
      list_notifications-own reader other _ r
      ∙ ap ok (notify_user-others writer own w n stamp s other d)
      ∙ sym (list_notifications-own reader other s r)

  -- A notification of an owned key that succeeds heads what that key lists, with the key as its
  -- audience, in front of what it listed before, up to the bound of the feed.
  pub notify_user-listed :
      (caller : Caller) (own : String) (n : Notice) (stamp : Stamp) (s : redis.Store)
      (ids : List String)
      → restricted_identity owner_claim caller ≡ ok (some own)
      → (notify_user redis feed_max owner_claim channels validated caller n stamp s).0 ≡ ok ids
      → list_notifications redis feed_max owner_claim caller
          (notify_user redis feed_max owner_claim channels validated caller n stamp s).1
        ≡ (list_notifications redis feed_max owner_claim caller s >>= λ listed.
            ok (take feed_max (stored n (some own) stamp ∷ listed)))
  notify_user-listed caller own n stamp s ids r h =
      list_notifications-own caller own _ r
      ∙ ap ok (notify_user-heads caller own r n stamp s h)
      ∙ sym (
          ap (λ l. l >>= λ listed. ok (take feed_max (stored n (some own) stamp ∷ listed)))
            (list_notifications-own caller own s r))
