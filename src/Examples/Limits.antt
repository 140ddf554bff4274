-- ===== src/Examples/Limits.antt =====
-- A counter store, and a flood at a public door.
use Prim.Native.Nat.{◌*◌}
use tai_skeleton.Base.{
  Option, none, some, List, ltb, ap, ◌∙◌, ◌+◌, ◌<◌, starts_with, list_beq, ℕ, suc, ◌-◌, ◌≤◌, Bool,
  true, false, ◌&&◌, ◌≡◌, ◌≢◌, refl, [], ◌∷◌, codes, arith, ◌==◌, ==_iff, nat_eq, list_eq, eqb,
  eqb_iff, if◌then◌else◌, Bool-cases, inl, inr,
}
use tai_skeleton.Middleware.RateLimit.{
  webhook, Window, minute, ten_seconds, Key, Counters, LimitSettings, family_of, over_limit,
  retry_after, limit_request,
}
use tai_skeleton.Middleware.RateLimit.Windows.{
  is_family, is_family_sound, is_family_refl, budget_of, Hit, skew, in_window,
}
use tai_skeleton.Middleware.RateLimit.Budget.{timely, counted, admitted, admitted_within_budget}

abbrev is_window : Window → Window → Bool
is_window minute minute = true
is_window ten_seconds ten_seconds = true
is_window _ _ = false

is_window_sound : (a b : Window) → is_window a b ≡ true → a ≡ b
is_window_sound minute minute h = refl
is_window_sound ten_seconds ten_seconds h = refl
is_window_sound _ _ h = absurd (ground arith)

is_window_refl : (a : Window) → is_window a a ≡ true
is_window_refl minute = refl
is_window_refl ten_seconds = refl

abbrev same_key : Key → Key → Bool
same_key a b =
    is_family a.family b.family
    && (is_window a.window b.window && (a.bucket == b.bucket && eqb a.number b.number))

same_key_sound : (a b : Key) → same_key a b ≡ true → a ≡ b
same_key_sound a b h =
    let f : a.family ≡ b.family = is_family_sound a.family b.family (ground arith) in
    let w : a.window ≡ b.window = is_window_sound a.window b.window (ground arith) in
    let t : a.bucket ≡ b.bucket = ground (arith, ==_iff a.bucket b.bucket) in
    let n : a.number ≡ b.number = ground (arith, eqb_iff a.number b.number) in cc

same_key_refl : (a : Key) → same_key a a ≡ true
same_key_refl a = ground (
  arith,
  is_family_refl a.family,
  is_window_refl a.window,
  ==_iff a.bucket a.bucket,
  eqb_iff a.number a.number,
)

-- a key's value, and the instant at which it goes
abbrev Cell : Type 0
Cell = ℕ × Option ℕ

abbrev held : ℕ → Cell → ℕ
held t (n, none) = n
held t (n, some end) = if ltb t end then n else 0

-- one added, at an instant
abbrev raised : ℕ → Cell → Cell
raised t (n, none) = (suc n, none)
raised t (n, some end) = if ltb t end then (suc n, some end) else (1, none)

held-raised : (t : ℕ) (c : Cell) → held t (raised t c) ≡ suc (held t c)
held-raised t (n, none) = refl
held-raised t (n, some end) = elim (Bool-cases (ltb t end)) [
  | inl e ↦ rw (e, e) refl
  | inr e ↦ rw e refl
]

abbrev set_cell : Key → Cell → (Key → Cell) → Key → Cell
set_cell k c s j = if same_key k j then c else s j

set_cell-own : (k : Key) (c : Cell) (s : Key → Cell) → set_cell k c s k ≡ c
set_cell-own k c s = rw (same_key_refl k) refl

set_cell-other : (k j : Key) (c : Cell) (s : Key → Cell) → k ≢ j → set_cell k c s j ≡ s j
set_cell-other k j c s n = elim (Bool-cases (same_key k j)) [
  | inl e ↦ absurd (n (same_key_sound k j e))
  | inr e ↦ rw e refl
]

until_end : (u n end : ℕ) → u < end → held u (n, some end) ≡ n
until_end u n end h = ground (arith, h)

from_end : (u n end : ℕ) → end ≤ u → held u (n, some end) ≡ 0
from_end u n end h = ground (arith, h)

abbrev table : Counters
table = record {
  Store = Key → Cell;
  count = λ s t k. held t (s k);
  incr = λ t k s. (suc (held t (s k)), set_cell k (raised t (s k)) s);
  expire = λ t k ttl s. set_cell k (held t (s k), some (t + ttl * 1000000)) s;
  incr_answers = λ t k s. refl;
  incr_counts = λ t k s. ap (held t) (set_cell-own k (raised t (s k)) s) ∙ held-raised t (s k);
  incr_others = λ t u k j s n. ap (held u) (set_cell-other k j (raised t (s k)) s n);
  expire_counts = λ t u k ttl s from before.
      ap (held u) (set_cell-own k (held t (s k), some (t + ttl * 1000000)) s)
      ∙ until_end u (held t (s k)) (t + ttl * 1000000) before;
  expire_ends = λ t u k ttl s gone.
      ap (held u) (set_cell-own k (held t (s k), some (t + ttl * 1000000)) s)
      ∙ from_end u (held t (s k)) (t + ttl * 1000000) gone;
  expire_others = λ t u k j ttl s n.
      ap (held u) (set_cell-other k j (held t (s k), some (t + ttl * 1000000)) s n);
}

abbrev limits : LimitSettings
limits = record {
  webhook_enabled = true;
  webhook_limit = 2;
  webhook_burst = 2;
  interactions_callback_enabled = true;
  interactions_callback_limit = 2;
  interactions_callback_burst = 2;
  trigger_enabled = false;
  trigger_limit = 2;
  trigger_burst = 2;
  trusted_proxies = [];
}

-- a request at the clock and instant given, in microseconds
abbrev hit : ℕ → ℕ → Hit
hit now instant = record {
  now = now;
  instant = instant;
  path = codes "/universal_webhook/a";
  bucket = codes "10.0.0.1";
}

abbrev flood : List Hit
flood = hit 61000000 60000000 ∷ hit 75000000 76000000 ∷ hit 119000000 125000000 ∷ []

abbrev first_minute : Key
first_minute = record { family = webhook; window = minute; bucket = codes "10.0.0.1"; number = 1 }

abbrev no_counters : Key → Cell
no_counters k = (0, none)

two_of_three : admitted table limits first_minute flood no_counters ≡ 2
unfolding admitted limit_request counted in_window family_of retry_after over_limit is_family
    starts_with list_beq
two_of_three = refl

abbrev quick : List Hit
quick = hit 61000000 60000000 ∷ hit 62000000 61000000 ∷ hit 64000000 66000000 ∷ []

abbrev first_seconds : Key
first_seconds = record {
  family = webhook;
  window = ten_seconds;
  bucket = codes "10.0.0.1";
  number = 6;
}

one_of_three :
    admitted table (record limits { webhook_burst = 1 }) first_seconds quick no_counters ≡ 1
unfolding admitted limit_request counted in_window family_of retry_after over_limit is_family
    starts_with list_beq
one_of_three = refl

flood-timely : timely (skew first_minute.window) 0 flood ≡ true
unfolding timely
flood-timely = refl

admitted_within_budget_example :
    admitted table limits first_minute flood no_counters
    ≤ budget_of limits first_minute.family first_minute.window - 0
admitted_within_budget_example =
    admitted_within_budget table limits first_minute flood no_counters 0 0 flood-timely
      (λ u from before. omega arith)
