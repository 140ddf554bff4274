-- ===== src/Middleware/RateLimit/Windows.antt =====
-- middleware/rate_limit.py: what one request does to the counters of the two windows.
use Prim.Native.Nat.{◌*◌, ◌/◌}
use tai_skeleton.Base.{
  ℕ, suc, ◌+◌, ◌≤◌, ◌<◌, leb, Bool, true, false, ◌&&◌, ◌≡◌, ◌≢◌, refl, ap, sym, subst, ◌∙◌, none,
  some, Text, arith, ◌==◌, ==_iff, nat_eq, list_eq, eqb, eqb_iff,
}
use tai_skeleton.Middleware.RateLimit.{
  Family, webhook, interactions_callback, trigger, Window, minute, ten_seconds, Key, Counters,
  LimitSettings, Door, family_of, minute_key, ten_key, over_limit, retry_after,
}

unfoldable pub is_family : Family → Family → Bool
is_family webhook webhook = true
is_family interactions_callback interactions_callback = true
is_family trigger trigger = true
is_family _ _ = false

pub is_family_sound : (a b : Family) → is_family a b ≡ true → a ≡ b
unfolding is_family
is_family_sound webhook webhook h = refl
is_family_sound interactions_callback interactions_callback h = refl
is_family_sound trigger trigger h = refl
is_family_sound _ _ h = absurd (ground arith)

pub is_family_refl : (a : Family) → is_family a a ≡ true
unfolding is_family
is_family_refl webhook = refl
is_family_refl interactions_callback = refl
is_family_refl trigger = refl

-- the budget of a family in a window
abbrev pub budget_of : LimitSettings → Family → Window → ℕ
budget_of s webhook minute = s.webhook_limit
budget_of s webhook ten_seconds = s.webhook_burst
budget_of s interactions_callback minute = s.interactions_callback_limit
budget_of s interactions_callback ten_seconds = s.interactions_callback_burst
budget_of s trigger minute = s.trigger_limit
budget_of s trigger ten_seconds = s.trigger_burst

abbrev pub door_budget : Door → Window → ℕ
door_budget d minute = d.limit
door_budget d ten_seconds = d.burst

pub family_of-budget :
    (s : LimitSettings) (path : Text) (d : Door) (w : Window)
    → family_of s path ≡ some d
    → door_budget d w ≡ budget_of s d.family w
unfolding family_of
family_of-budget s path d minute h = ground arith
family_of-budget s path d ten_seconds h = ground arith

-- A request at a public door, from the bucket of its client.
pub record Hit : Type 0 where
  -- the clock of the process that serves it, and the instant of the server
  pub now : ℕ
  pub instant : ℕ
  pub path : Text
  pub bucket : Text

-- the windows in microseconds: their width, how far a process clock may be off, the first instant at which
-- no request of the window reaches the server, and for how long a request stays counted
abbrev pub width : Window → ℕ
width minute = 60000000
width ten_seconds = 10000000

abbrev pub skew : Window → ℕ
skew minute = 30000000
skew ten_seconds = 5000000

abbrev pub last_instant : Window → ℕ → ℕ
last_instant minute n = n * 60000000 + 90000000
last_instant ten_seconds n = n * 10000000 + 15000000

abbrev pub lifetime : Window → ℕ
lifetime minute = 120000000
lifetime ten_seconds = 20000000

-- the counter of a window that a request at a door raises
abbrev pub key_in : Window → Family → Text → ℕ → Key
key_in minute family bucket now = minute_key family bucket now
key_in ten_seconds family bucket now = ten_key family bucket now

-- whether a request at a door falls in the window of a counter
unfoldable pub in_window : Key → Door → Hit → Bool
in_window k d h =
    is_family d.family k.family && (h.bucket == k.bucket && eqb (h.now / width k.window) k.number)

pub in_window-family : (k : Key) (d : Door) (h : Hit) → in_window k d h ≡ true → d.family ≡ k.family
unfolding in_window
in_window-family k d h e = is_family_sound d.family k.family (ground arith)

pub in_window-key :
    (k : Key) (d : Door) (h : Hit)
    → in_window k d h ≡ true
    → key_in k.window d.family h.bucket h.now ≡ k
unfolding in_window
in_window-key k d h e =
    let f : d.family ≡ k.family = in_window-family k d h e in
    let b : h.bucket ≡ k.bucket = ground (arith, ==_iff h.bucket k.bucket) in
    let n : h.now / width k.window ≡ k.number =
      ground (arith, eqb_iff (h.now / width k.window) k.number) in
    named k.window ∙ cc
  where
    named :
        (w : Window)
        → key_in w d.family h.bucket h.now
          ≡ record { family = d.family; window = w; bucket = h.bucket; number = h.now / width w }
    named minute = refl
    named ten_seconds = refl

key_in-in_window :
    (w : Window) (d : Door) (h : Hit) → in_window (key_in w d.family h.bucket h.now) d h ≡ true
unfolding in_window
key_in-in_window minute d h = ground (
  arith,
  is_family_refl d.family,
  ==_iff h.bucket h.bucket,
  eqb_iff (h.now / 60000000) (h.now / 60000000),
)
key_in-in_window ten_seconds d h = ground (
  arith,
  is_family_refl d.family,
  ==_iff h.bucket h.bucket,
  eqb_iff (h.now / 10000000) (h.now / 10000000),
)

-- a counter is another one where the request is not in its window
pub not_in_window-key :
    (k : Key) (w : Window) (d : Door) (h : Hit)
    → in_window k d h ≡ false
    → key_in w d.family h.bucket h.now ≢ k
not_in_window-key k w d h e same =
    let own : in_window k d h ≡ true =
      subst (λ j. in_window j d h ≡ true) same (key_in-in_window w d h) in
    absurd (ground (arith, own, e))

-- a request of a window reaches the server within the lifetime of its counters
pub in_window-instants :
    (k : Key) (d : Door) (h : Hit)
    → in_window k d h ≡ true
    → leb h.now (h.instant + skew k.window) ≡ true
    → leb h.instant (h.now + skew k.window) ≡ true
    → (h.instant < last_instant k.window k.number)
      × (last_instant k.window k.number ≤ h.instant + lifetime k.window)
unfolding in_window
in_window-instants k d h here early late =
    bounds k.window k.number (ground (arith, eqb_iff (h.now / width k.window) k.number)) early late
  where
    bounds :
        (w : Window) (n : ℕ)
        → h.now / width w ≡ n
        → leb h.now (h.instant + skew w) ≡ true
        → leb h.instant (h.now + skew w) ≡ true
        → (h.instant < last_instant w n) × (last_instant w n ≤ h.instant + lifetime w)
    bounds minute n e early late =
        let floor : n * 60000000 ≤ h.now = subst (λ k. k * 60000000 ≤ h.now) e (omega arith) in
        let ceiling : h.now < n * 60000000 + 60000000 =
          subst (λ k. h.now < k * 60000000 + 60000000) e (omega arith) in
        (ground (arith, ceiling, late), ground (arith, floor, early))
    bounds ten_seconds n e early late =
        let floor : n * 10000000 ≤ h.now = subst (λ k. k * 10000000 ≤ h.now) e (omega arith) in
        let ceiling : h.now < n * 10000000 + 10000000 =
          subst (λ k. h.now < k * 10000000 + 10000000) e (omega arith) in
        (ground (arith, ceiling, late), ground (arith, floor, early))

minute_key-ten_key : (f g : Family) (a b : Text) (x y : ℕ) → minute_key f a x ≢ ten_key g b y
minute_key-ten_key f g a b x y same =
    let w : minute ≡ ten_seconds = ap (λ k. k.window) same in absurd (ground arith)

over_limit-none :
    (redis : Counters) (now limit burst m_count s_count : ℕ)
    → over_limit redis now limit burst m_count s_count ≡ none
    → (m_count ≤ limit) × (s_count ≤ burst)
unfolding over_limit
over_limit-none redis now limit burst m_count s_count h = (ground arith, ground arith)

module _ (redis : Counters) (now instant : ℕ) (d : Door) (bucket : Text) (s : redis.Store) where
  -- a counter that neither window of a request is
  pub retry_after-others :
      (k : Key) (u : ℕ)
      → minute_key d.family bucket now ≢ k
      → ten_key d.family bucket now ≢ k
      → redis.count (retry_after redis now instant d bucket s).1 u k ≡ redis.count s u k
  unfolding retry_after
  retry_after-others k u nm nt =
      redis.expire_others instant u _ k 20 _ nt
      ∙ redis.incr_others instant u _ k _ nt
      ∙ redis.expire_others instant u _ k 120 _ nm
      ∙ redis.incr_others instant u _ k s nm

  apart : minute_key d.family bucket now ≢ ten_key d.family bucket now
  apart = minute_key-ten_key d.family d.family bucket bucket now now

  -- for two widths of the window the request is counted
  pub retry_after-counts :
      (w : Window) (u : ℕ)
      → instant ≤ u
      → u < instant + lifetime w
      → redis.count (retry_after redis now instant d bucket s).1 u (key_in w d.family bucket now)
        ≡ suc (redis.count s instant (key_in w d.family bucket now))
  unfolding retry_after
  retry_after-counts minute u later live =
      redis.expire_others instant u _ (minute_key d.family bucket now) 20 _ (λ e. apart (sym e))
      ∙ redis.incr_others instant u _ (minute_key d.family bucket now) _ (λ e. apart (sym e))
      ∙ redis.expire_counts instant u (minute_key d.family bucket now) 120 _ later live
      ∙ redis.incr_counts instant (minute_key d.family bucket now) s
  retry_after-counts ten_seconds u later live =
      redis.expire_counts instant u (ten_key d.family bucket now) 20 _ later live
      ∙ redis.incr_counts instant (ten_key d.family bucket now) _
      ∙ ap suc (
          redis.expire_others instant instant _ (ten_key d.family bucket now) 120 _ apart
          ∙ redis.incr_others instant instant _ (ten_key d.family bucket now) s apart)

  -- a request that goes through is within the budget of both windows
  pub retry_after-within :
      (w : Window)
      → (retry_after redis now instant d bucket s).0 ≡ none
      → suc (redis.count s instant (key_in w d.family bucket now)) ≤ door_budget d w
  unfolding retry_after
  retry_after-within minute h =
      let (within, _) = over_limit-none redis now d.limit d.burst _ _ h in
      subst (λ n. n ≤ d.limit) (redis.incr_answers instant (minute_key d.family bucket now) s)
        within
  retry_after-within ten_seconds h =
      let (_, within) = over_limit-none redis now d.limit d.burst _ _ h in
      subst (λ n. n ≤ d.burst)
        (redis.incr_answers instant (ten_key d.family bucket now) _
          ∙ ap suc (
              redis.expire_others instant instant _ (ten_key d.family bucket now) 120 _ apart
              ∙ redis.incr_others instant instant _ (ten_key d.family bucket now) s apart))
        within
