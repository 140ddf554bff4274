-- ===== src/Middleware/RateLimit.antt =====
-- middleware/rate_limit.py: the fixed-window limiter of the public doors. The Redis counters are a
-- parameter with the documented behaviour of INCR and EXPIRE; so is the grouping of addresses, which
-- the `ipaddress` library does. The clocks count microseconds. A counter's key is kept as its parts:
-- its text determines them, since the last part is a number and the first ones have no colon.
pub mod Windows
pub mod Budget
use Prim.Native.Nat.{◌*◌, ◌/◌}
use tai_skeleton.Base.{
  ℕ, zero, suc, ◌+◌, ◌-◌, Bool, true, false, ◌&&◌, not, ◌≡◌, ◌≢◌, ◌≤◌, ◌<◌, Option, none, some,
  List, [], ◌∷◌, String, Text, codes, ◌==◌, nat_eq, string_eq, list_eq, elem, ltb, eqb, is_empty,
  keep, map, starts_with, if◌then◌else◌,
}
use mathlib.Core.List.{reverse}
use tai_skeleton.AccessControl.Backend.{strip_left, strip_right}

pub data Family : Type 0 where
  webhook interactions_callback trigger : Family

pub data Window : Type 0 where
  minute ten_seconds : Window

pub record Key : Type 0 where
  pub family : Family
  pub window : Window
  pub bucket : Text
  pub number : ℕ

-- The counters, with the instant of the server at which a command runs, in microseconds. `count` is what
-- a key holds at an instant, 0 where there is no key. INCR adds one and answers the sum; EXPIRE keeps the
-- key for the given seconds, and then it is gone.
pub record Counters : Type 1 where
  pub Store : Type 0
  pub count : Store → ℕ → Key → ℕ
  pub incr : ℕ → Key → Store → ℕ × Store
  pub expire : ℕ → Key → ℕ → Store → Store
  pub incr_answers : (t : ℕ) (k : Key) (s : Store) → (incr t k s).0 ≡ suc (count s t k)
  pub incr_counts : (t : ℕ) (k : Key) (s : Store) → count (incr t k s).1 t k ≡ suc (count s t k)
  pub incr_others :
      (t u : ℕ) (k j : Key) (s : Store) → k ≢ j → count (incr t k s).1 u j ≡ count s u j
  pub expire_counts :
      (t u : ℕ) (k : Key) (ttl : ℕ) (s : Store)
      → t ≤ u
      → u < t + ttl * 1000000
      → count (expire t k ttl s) u k ≡ count s t k
  pub expire_ends :
      (t u : ℕ) (k : Key) (ttl : ℕ) (s : Store)
      → t + ttl * 1000000 ≤ u
      → count (expire t k ttl s) u k ≡ 0
  pub expire_others :
      (t u : ℕ) (k j : Key) (ttl : ℕ) (s : Store)
      → k ≢ j
      → count (expire t k ttl s) u j ≡ count s u j

pub record LimitSettings : Type 0 where
  pub webhook_enabled : Bool
  pub webhook_limit : ℕ
  pub webhook_burst : ℕ
  pub interactions_callback_enabled : Bool
  pub interactions_callback_limit : ℕ
  pub interactions_callback_burst : ℕ
  pub trigger_enabled : Bool
  pub trigger_limit : ℕ
  pub trigger_burst : ℕ
  pub trusted_proxies : List Text

pub record Door : Type 0 where
  pub family : Family
  pub limit : ℕ
  pub burst : ℕ

-- _family; the prefix that the audit line names is left out
unfoldable pub family_of : LimitSettings → Text → Option Door
family_of s path =
    if starts_with path (codes "/universal_webhook/")
    then (if s.webhook_enabled
        then some (record { family = webhook; limit = s.webhook_limit; burst = s.webhook_burst })
        else none)
    else if starts_with path (codes "/api/interactions/callback/")
    then (if s.interactions_callback_enabled
        then some (record {
          family = interactions_callback;
          limit = s.interactions_callback_limit;
          burst = s.interactions_callback_burst;
        })
        else none)
    else if starts_with path (codes "/trigger/")
    then (if s.trigger_enabled
        then some (record { family = trigger; limit = s.trigger_limit; burst = s.trigger_burst })
        else none)
    else none

-- `c` goes in front of the first part
abbrev onto : ℕ → List Text → List Text
onto c [] = (c ∷ []) ∷ []
onto c (p ∷ ps) = (c ∷ p) ∷ ps

-- s.split(",")
unfoldable pub split_comma : Text → List Text
split_comma [] = [] ∷ []
split_comma (c ∷ s) = let parts = split_comma s in if eqb c b',' then [] ∷ parts else onto c parts

-- the hops, stripped, without the empty ones
unfoldable pub hops_of : List Text → List Text
hops_of [] = []
hops_of (h ∷ hs) =
    let rest = hops_of hs in
    let hop = strip_right (strip_left h) in if is_empty hop then rest else hop ∷ rest

-- the first one that is no trusted proxy
unfoldable pub first_untrusted : List Text → Text → List Text → Text
first_untrusted trusted peer [] = peer
first_untrusted trusted peer (h ∷ hs) =
    if elem h trusted then first_untrusted trusted peer hs else h

unfoldable pub client_bucket : (Text → Text) → List Text → Option Text → Text → Text
client_bucket bucket_ip trusted client forwarded =
    let peer : Text = elim client [ none ↦ codes "unknown" | some host ↦ host ] in
    bucket_ip (
      if elem peer trusted
      then first_untrusted trusted peer (reverse (hops_of (split_comma forwarded)))
      else peer)

-- max(1, ceil(us / 1000000)), of a duration in microseconds
abbrev pub seconds_left : ℕ → ℕ
seconds_left us = let s = (us + 999999) / 1000000 in if eqb s 0 then 1 else s

abbrev pub minute_key : Family → Text → ℕ → Key
minute_key family bucket now = record {
  family = family;
  window = minute;
  bucket = bucket;
  number = now / 60000000;
}

abbrev pub ten_key : Family → Text → ℕ → Key
ten_key family bucket now = record {
  family = family;
  window = ten_seconds;
  bucket = bucket;
  number = now / 10000000;
}

module _ (redis : Counters) where
  -- the answer on the two counts
  unfoldable pub over_limit : ℕ → ℕ → ℕ → ℕ → ℕ → Option ℕ
  over_limit now limit burst m_count s_count =
      if ltb limit m_count
      then some (seconds_left ((now / 60000000 + 1) * 60000000 - now))
      else if ltb burst s_count
      then some (seconds_left ((now / 10000000 + 1) * 10000000 - now))
      else none

  -- the pipeline, a transaction at one instant of the server: both counters are raised, whatever the
  -- answer is. `now` is the clock of the process.
  unfoldable pub retry_after : ℕ → ℕ → Door → Text → redis.Store → Option ℕ × redis.Store
  retry_after now instant door bucket s0 =
      let (m_count, s1) = redis.incr instant (minute_key door.family bucket now) s0 in
      let s2 = redis.expire instant (minute_key door.family bucket now) 120 s1 in
      let (s_count, s3) = redis.incr instant (ten_key door.family bucket now) s2 in
      let s4 = redis.expire instant (ten_key door.family bucket now) 20 s3 in
      (over_limit now door.limit door.burst m_count s_count, s4)

  -- a request from a bucket: the seconds to wait if it is refused
  unfoldable pub limit_request :
      LimitSettings → ℕ → ℕ → Text → Text → redis.Store → Option ℕ × redis.Store
  limit_request settings now instant path bucket s = elim (family_of settings path) [
    | none ↦ (none, s)
    | some door ↦ retry_after now instant door bucket s
  ]

  -- `__call__` of an http scope, with the path, the peer and the forwarding header of the request
  unfoldable call_limiter :
      (Text → Text)
      → LimitSettings
      → ℕ
      → ℕ
      → Text
      → Option Text
      → Text
      → redis.Store
      → Option ℕ × redis.Store
  call_limiter bucket_ip settings now instant path client forwarded s =
      limit_request settings now instant path
        (client_bucket bucket_ip settings.trusted_proxies client forwarded) s
