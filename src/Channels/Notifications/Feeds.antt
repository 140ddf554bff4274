-- ===== src/Channels/Notifications/Feeds.antt =====
-- What the feeds hold: the newest records of each window, and who can read what.
use tai_skeleton.Base.{
  ℕ, suc, ◌-◌, ◌<◌, Bool, true, false, ◌≡◌, ◌≢◌, inl, inr, refl, ap, sym, subst, ◌∙◌, Option, none,
  some, List, [], ◌∷◌, String, arith, ◌==◌, ==_iff, string_eq, take, take-nil, take-cons,
  if◌then◌else◌, Bool-cases,
}
use tai_skeleton.Channels.Notifications.{
  Notification, Feed, shared, audience_feed, FeedStore, push_bounded, push_addressed,
  record_notification, read_notifications,
}

audience_feed-other_shared : (a : String) → shared ≢ audience_feed a
audience_feed-other_shared a e = cc

audience_feed-other : (a b : String) → a ≢ b → audience_feed a ≢ audience_feed b
audience_feed-other a b n e = n cc

-- whether a record has the identity as its audience
abbrev pub is_for : String → Option String → Bool
is_for who none = false
is_for who (some a) = a == who

-- the records of an identity, newest first
unfoldable pub addressed_to : String → List Notification → List Notification
addressed_to who [] = []
addressed_to who (n ∷ ns) =
    let rest = addressed_to who ns in if is_for who n.audience then n ∷ rest else rest

module _ (redis : FeedStore) (feed_max : ℕ) (room : 0 < feed_max) where
  push_bounded-same :
      (k : Feed) (n : Notification) (s : redis.Store)
      → redis.lrange k (push_bounded redis feed_max k n s) ≡ take feed_max (n ∷ redis.lrange k s)
  unfolding push_bounded
  push_bounded-same k n s =
      let whole : suc (feed_max - 1) ≡ feed_max = omega arith in
      redis.ltrim_range k (feed_max - 1) _
      ∙ ap (λ m. take m (redis.lrange k (redis.lpush k n s))) whole
      ∙ ap (take feed_max) (redis.lpush_range k n s)

  push_bounded-other :
      (k j : Feed) (n : Notification) (s : redis.Store)
      → k ≢ j
      → redis.lrange j (push_bounded redis feed_max k n s) ≡ redis.lrange j s
  unfolding push_bounded
  push_bounded-other k j n s d =
      redis.ltrim_others k j (feed_max - 1) _ d ∙ redis.lpush_others k j n s d

  push_addressed-shared :
      (o : Option String) (n : Notification) (s : redis.Store)
      → redis.lrange shared (push_addressed redis feed_max o n s) ≡ redis.lrange shared s
  unfolding push_addressed
  push_addressed-shared none n s = refl
  push_addressed-shared (some a) n s =
      push_bounded-other (audience_feed a) shared n s (λ q. audience_feed-other_shared a (sym q))

  push_addressed-own :
      (o : Option String) (who : String) (n : Notification) (s : redis.Store)
      → is_for who o ≡ true
      → redis.lrange (audience_feed who) (push_addressed redis feed_max o n s)
        ≡ take feed_max (n ∷ redis.lrange (audience_feed who) s)
  unfolding push_addressed
  push_addressed-own none who n s h = absurd (ground arith)
  push_addressed-own (some a) who n s h =
      let e : a ≡ who = ground (arith, h, ==_iff a who) in
      subst
        (λ b.
          redis.lrange (audience_feed b) (push_bounded redis feed_max (audience_feed a) n s)
          ≡ take feed_max (n ∷ redis.lrange (audience_feed b) s))
        e (push_bounded-same (audience_feed a) n s)

  push_addressed-others :
      (o : Option String) (who : String) (n : Notification) (s : redis.Store)
      → is_for who o ≡ false
      → redis.lrange (audience_feed who) (push_addressed redis feed_max o n s)
        ≡ redis.lrange (audience_feed who) s
  unfolding push_addressed
  push_addressed-others none who n s h = refl
  push_addressed-others (some a) who n s h =
      push_bounded-other (audience_feed a) (audience_feed who) n s
        (audience_feed-other a who (λ e. absurd (ground (arith, h, e, ==_iff a who))))

  record_notification-shared :
      (n : Notification) (s : redis.Store)
      → redis.lrange shared (record_notification redis feed_max n s)
        ≡ take feed_max (n ∷ redis.lrange shared s)
  unfolding record_notification
  record_notification-shared n s =
      push_addressed-shared n.audience n _ ∙ push_bounded-same shared n s

  pub record_notification-own :
      (n : Notification) (who : String) (s : redis.Store)
      → is_for who n.audience ≡ true
      → redis.lrange (audience_feed who) (record_notification redis feed_max n s)
        ≡ take feed_max (n ∷ redis.lrange (audience_feed who) s)
  unfolding record_notification
  record_notification-own n who s h =
      push_addressed-own n.audience who n _ h
      ∙ ap (λ ns. take feed_max (n ∷ ns))
          (push_bounded-other shared (audience_feed who) n s (audience_feed-other_shared who))

  pub record_notification-others :
      (n : Notification) (who : String) (s : redis.Store)
      → is_for who n.audience ≡ false
      → redis.lrange (audience_feed who) (record_notification redis feed_max n s)
        ≡ redis.lrange (audience_feed who) s
  unfolding record_notification
  record_notification-others n who s h =
      push_addressed-others n.audience who n _ h
      ∙ push_bounded-other shared (audience_feed who) n s (audience_feed-other_shared who)

  -- the records are written from the last of the list to its first
  unfoldable pub record_all : List Notification → redis.Store → redis.Store
  record_all [] s = s
  record_all (n ∷ ns) s = record_notification redis feed_max n (record_all ns s)

  shared_window :
      (ns : List Notification) (s : redis.Store)
      → redis.lrange shared s ≡ []
      → redis.lrange shared (record_all ns s) ≡ take feed_max ns
  unfolding record_all
  shared_window [] s fresh = fresh ∙ sym (take-nil feed_max)
  shared_window (n ∷ ns) s fresh =
      record_notification-shared n (record_all ns s)
      ∙ ap (λ l. take feed_max (n ∷ l)) (shared_window ns s fresh)
      ∙ take-cons feed_max n ns

  own_window :
      (who : String) (ns : List Notification) (s : redis.Store)
      → redis.lrange (audience_feed who) s ≡ []
      → redis.lrange (audience_feed who) (record_all ns s) ≡ take feed_max (addressed_to who ns)
  unfolding record_all addressed_to
  own_window who [] s fresh = fresh ∙ sym (take-nil feed_max)
  own_window who (n ∷ ns) s fresh = elim (Bool-cases (is_for who n.audience)) [
    | inl h ↦
        record_notification-own n who (record_all ns s) h
        ∙ ap (λ l. take feed_max (n ∷ l)) (own_window who ns s fresh)
        ∙ take-cons feed_max n (addressed_to who ns)
        ∙ rw h refl
    | inr h ↦
        record_notification-others n who (record_all ns s) h ∙ own_window who ns s fresh ∙ rw h refl
  ]

  -- In feeds that were empty, the shared feed holds the newest of all records, and the feed of an
  -- identity the newest of its own, however many others there are.
  pub read_notifications-newest :
      (who : String) (ns : List Notification) (s : redis.Store)
      → redis.lrange shared s ≡ []
      → redis.lrange (audience_feed who) s ≡ []
      → (read_notifications redis feed_max none (record_all ns s) ≡ take feed_max ns)
        × (read_notifications redis feed_max (some who) (record_all ns s)
            ≡ take feed_max (addressed_to who ns))
  unfolding read_notifications
  read_notifications-newest who ns s fresh own_fresh =
      (shared_window ns s fresh, own_window who ns s own_fresh)
