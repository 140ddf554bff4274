-- ===== src/Middleware/RateLimit/Budget.antt =====
-- The budget of a window: how many requests the limiter lets through.
use tai_skeleton.Base.{
  ℕ, suc, ◌+◌, ◌-◌, ◌≤◌, ◌<◌, leb, Bool, true, false, ◌&&◌, ◌≡◌, ◌⊎◌, inl, inr, refl, ap, sym,
  subst, ◌∙◌, Option, none, some, List, [], ◌∷◌, arith, nat_eq, list_eq, Bool-cases, Option-cases,
  if◌then◌else◌,
}
use tai_skeleton.Middleware.RateLimit.{
  minute, ten_seconds, Key, Counters, LimitSettings, Door, family_of, retry_after, limit_request,
}
use tai_skeleton.Middleware.RateLimit.Windows.{
  Hit, budget_of, door_budget, family_of-budget, skew, last_instant, lifetime, in_window,
  in_window-family, in_window-key, not_in_window-key, in_window-instants, retry_after-others,
  retry_after-counts, retry_after-within,
}

-- The requests reach the server in order, from an instant on, and what each process has read on its clock
-- is at most the given time off the instant at which its pipeline runs.
unfoldable pub timely : ℕ → ℕ → List Hit → Bool
timely off t [] = true
timely off t (h ∷ hs) =
    leb t h.instant
    && (leb h.now (h.instant + off) && (leb h.instant (h.now + off) && timely off h.instant hs))

-- what the counter of a window holds at least, from an instant on
abbrev pub Spent : (redis : Counters) → Key → ℕ → redis.Store → ℕ → Type 0
Spent redis k t s n = (u : ℕ) → t ≤ u → u < last_instant k.window k.number → n ≤ redis.count s u k

abbrev pub is_none {ℓ} : {A : Type ℓ} → Option A → Bool
is_none none = true
is_none (some a) = false

-- whether a request is counted in a window of a bucket and family
unfoldable pub counted : LimitSettings → Key → Hit → Bool
counted settings k h = elim (family_of settings h.path) [ none ↦ false | some d ↦ in_window k d h ]

module _ (redis : Counters) (settings : LimitSettings) (k : Key) where
  -- how many requests of that window the limiter lets through, among requests of any kind
  unfoldable pub admitted : List Hit → redis.Store → ℕ
  admitted [] s = 0
  admitted (h ∷ hs) s =
      let (answer, s') = limit_request redis settings h.now h.instant h.path h.bucket s in
      let rest = admitted hs s' in if counted settings k h && is_none answer then suc rest else rest

  -- what one request does to what the window has spent
  abbrev Spends : Hit → redis.Store → ℕ → Type 0
  Spends h s n =
      let (answer, s') = limit_request redis settings h.now h.instant h.path h.bucket s in
      ((counted settings k h ≡ false) × Spent redis k h.instant s' n)
      ⊎ ((counted settings k h ≡ true)
          × (Spent redis k h.instant s' (suc n)
              × ((is_none answer ≡ false) ⊎ (suc n ≤ budget_of settings k.family k.window))))

  raised :
      (h : Hit) (s : redis.Store) (n : ℕ) (d : Door)
      → in_window k d h ≡ true
      → n ≤ redis.count s h.instant k
      → (u : ℕ) → h.instant ≤ u
      → u < h.instant + lifetime k.window
      → suc n ≤ redis.count (retry_after redis h.now h.instant d h.bucket s).1 u k
  raised h s n d here now_spent u from live =
      let counts =
        subst
          (λ j.
            redis.count (retry_after redis h.now h.instant d h.bucket s).1 u j
            ≡ suc (redis.count s h.instant j))
          (in_window-key k d h here)
          (retry_after-counts redis h.now h.instant d h.bucket s k.window u from live) in
      subst (λ c. suc n ≤ c) (sym counts) (omega (arith, now_spent))

  within :
      (h : Hit) (s : redis.Store) (n : ℕ) (d : Door)
      → family_of settings h.path ≡ some d
      → in_window k d h ≡ true
      → n ≤ redis.count s h.instant k
      → (answer : Option ℕ) → (retry_after redis h.now h.instant d h.bucket s).0 ≡ answer
      → (is_none answer ≡ false) ⊎ (suc n ≤ budget_of settings k.family k.window)
  within h s n d e here now_spent (some w) a = inl refl
  within h s n d e here now_spent none a =
      let f : d.family ≡ k.family = in_window-family k d h here in
      let bound : door_budget d k.window ≡ budget_of settings k.family k.window =
        family_of-budget settings h.path d k.window e ∙ ap (λ f. budget_of settings f k.window) f in
      let fits =
        subst (λ j. suc (redis.count s h.instant j) ≤ door_budget d k.window)
          (in_window-key k d h here)
          (retry_after-within redis h.now h.instant d h.bucket s k.window a) in
      inr (subst (λ c. suc n ≤ c) bound (omega (arith, fits, now_spent)))

  door_count :
      (h : Hit) (s : redis.Store) (n : ℕ) (d : Door)
      → Spent redis k h.instant s n
      → leb h.now (h.instant + skew k.window) ≡ true
      → leb h.instant (h.now + skew k.window) ≡ true
      → family_of settings h.path ≡ some d
      → Spends h s n
  unfolding limit_request counted
  door_count h s n d spent early late e =
      rw (e, limit_request, counted)
        (elim (Bool-cases (in_window k d h)) [
          | inr out ↦ inl (
            out,
            λ u from before.
                subst (λ c. n ≤ c)
                  (sym (
                    retry_after-others redis h.now h.instant d h.bucket s k u
                      (not_in_window-key k minute d h out)
                      (not_in_window-key k ten_seconds d h out)))
                  (spent u from before),
          )
          | inl here ↦
              let (inside, long) = in_window-instants k d h here early late in
              let now_spent : n ≤ redis.count s h.instant k =
                spent h.instant (omega arith) inside in
              inr (
                here,
                (
                  λ u from before.
                      raised h s n d here now_spent u from (omega (arith, long, before)),
                  within h s n d e here now_spent (retry_after redis h.now h.instant d h.bucket s).0
                      refl,
                ),
              )
        ])

  window_count :
      (h : Hit) (s : redis.Store) (n : ℕ)
      → Spent redis k h.instant s n
      → leb h.now (h.instant + skew k.window) ≡ true
      → leb h.instant (h.now + skew k.window) ≡ true
      → Spends h s n
  unfolding limit_request counted
  window_count h s n spent early late = elim (Option-cases (family_of settings h.path)) [
    | inl e ↦ rw (e, limit_request, counted) (inl (refl, spent))
    | inr (d, e) ↦ door_count h s n d spent early late e
  ]

  -- Whatever requests reach the server in order, from whatever buckets, with process clocks that are at
  -- most half the window's width off the server's, the limiter lets through in a window, of a minute or of
  -- ten seconds, at most what the budget of a family leaves to a bucket there: its limit or its burst, less
  -- what is spent from the first instant on.
  pub admitted_within_budget :
      (hs : List Hit) (s : redis.Store) (t n : ℕ)
      → timely (skew k.window) t hs ≡ true
      → Spent redis k t s n
      → admitted hs s ≤ budget_of settings k.family k.window - n
  unfolding admitted timely
  admitted_within_budget [] s t n on_time spent = omega arith
  admitted_within_budget (h ∷ hs) s t n on_time spent =
      let s' = (limit_request redis settings h.now h.instant h.path h.bucket s).1 in
      let from : t ≤ h.instant = ground (arith, on_time) in
      let here = λ (u : ℕ) (late : h.instant ≤ u) (before : u < last_instant k.window k.number).
        spent u (omega (arith, from, late)) before in
      elim (window_count h s n here (ground (arith, on_time)) (ground (arith, on_time))) [
        | inl (out, left) ↦
            let ih = admitted_within_budget hs s' h.instant n (ground (arith, on_time)) left in
            ground (arith, out, ih)
        | inr (own, (left, inl over)) ↦
            let ih =
              admitted_within_budget hs s' h.instant (suc n) (ground (arith, on_time)) left in
            ground (arith, own, over, ih)
        | inr (own, (left, inr fits)) ↦
            let ih =
              admitted_within_budget hs s' h.instant (suc n) (ground (arith, on_time)) left in
            ground (arith, own, fits, ih)
      ]
