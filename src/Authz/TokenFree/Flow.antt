-- ===== src/Authz/TokenFree/Flow.antt =====
-- Streams that differ only where one holds the one context and the other the other.
use tai_skeleton.Base.{
  Bool, true, ◌≡◌, ◌⊎◌, inl, inr, refl, sym, ap, ◌∙◌, subst, nat_eq, list_eq, Bool-cases,
}
use tai_skeleton.Authz.TokenFree.Taint.{Taint, context, safe, either}
use tai_skeleton.Authz.TokenFree.Jq.{
  Stream, done, raised, output, append, feed, catching, truthy_only, or_else,
}

module _ {V : Type 0} (first second : V) where
  -- values at run time that the taint allows to differ
  abbrev pub Near : Taint → V → V → Type 0
  Near safe x y = x ≡ y
  Near context x y = (x ≡ y) ⊎ ((x ≡ first) × (y ≡ second))

  abbrev pub Alike : Taint → Stream V → Stream V → Type 0
  Alike t done done = Unit {0}
  Alike t (raised e) (raised f) = e ≡ f
  Alike t (output x s) (output y r) = Near t x y × Alike t s r
  Alike t _ _ = ⊥

  pub Near-refl : (t : Taint) (x : V) → Near t x x
  Near-refl safe x = refl
  Near-refl context x = inl refl

  pub Near-weaken : (t : Taint) (x y : V) → Near t x y → Near context x y
  Near-weaken safe x y h = inl h
  Near-weaken context x y h = h

  pub Alike-refl : (t : Taint) (s : Stream V) → Alike t s s
  Alike-refl t done = tt
  Alike-refl t (raised e) = refl
  Alike-refl t (output x s) = (Near-refl t x, Alike-refl t s)

  pub Alike-of_eq : (t : Taint) {s r : Stream V} → s ≡ r → Alike t s r
  Alike-of_eq t {s} e = subst (Alike t s) e (Alike-refl t s)

  pub eq_of_Alike : (s r : Stream V) → Alike safe s r → s ≡ r
  eq_of_Alike done done h = refl
  eq_of_Alike (raised e) (raised f) h = ap raised h
  eq_of_Alike (output x s) (output y r) (h, hs) = let ih = eq_of_Alike s r hs in cc
  eq_of_Alike _ _ h = absurd h

  pub Alike-weaken : (t : Taint) (s r : Stream V) → Alike t s r → Alike context s r
  Alike-weaken t done done h = tt
  Alike-weaken t (raised e) (raised f) h = h
  Alike-weaken t (output x s) (output y r) (h, hs) = (Near-weaken t x y h, Alike-weaken t s r hs)
  Alike-weaken t _ _ h = absurd h

  pub Alike-append :
      (t : Taint) (s r s' r' : Stream V)
      → Alike t s r
      → Alike t s' r'
      → Alike t (append s s') (append r r')
  unfolding append
  Alike-append t done done s' r' h k = k
  Alike-append t (raised e) (raised f) s' r' h k = h
  Alike-append t (output x s) (output y r) s' r' (h, hs) k = (h, Alike-append t s r s' r' hs k)
  Alike-append t _ _ s' r' h k = absurd h

  pub Alike-feed :
      (t u : Taint) (s r : Stream V) (f g : V → Stream V)
      → Alike t s r
      → ((x y : V) → Near t x y → Alike u (f x) (g y))
      → Alike u (feed s f) (feed r g)
  unfolding feed
  Alike-feed t u done done f g h k = tt
  Alike-feed t u (raised e) (raised d) f g h k = h
  Alike-feed t u (output x s) (output y r) f g (h, hs) k =
      Alike-append u (f x) (g y) (feed s f) (feed r g) (k x y h) (Alike-feed t u s r f g hs k)
  Alike-feed t u _ _ f g h k = absurd h

  pub Alike-catching :
      (t : Taint) (s r : Stream V) (f g : V → Stream V)
      → Alike t s r
      → ((e : V) → Alike t (f e) (g e))
      → Alike t (catching s f) (catching r g)
  unfolding catching
  Alike-catching t done done f g h k = tt
  Alike-catching t (raised e) (raised d) f g h k = subst (λ c. Alike t (f e) (g c)) h (k e)
  Alike-catching t (output x s) (output y r) f g (h, hs) k = (h, Alike-catching t s r f g hs k)
  Alike-catching t _ _ f g h k = absurd h

  pub Alike-either_left : (t u : Taint) (s r : Stream V) → Alike t s r → Alike (either t u) s r
  Alike-either_left safe safe s r h = h
  Alike-either_left safe context s r h = Alike-weaken safe s r h
  Alike-either_left context u s r h = h

  pub Alike-either_right : (t u : Taint) (s r : Stream V) → Alike u s r → Alike (either t u) s r
  Alike-either_right safe safe s r h = h
  Alike-either_right safe context s r h = h
  Alike-either_right context u s r h = Alike-weaken u s r h

  pub Alike-or_else :
      (t : Taint) (s r s' r' : Stream V)
      → Alike t s r
      → Alike t s' r'
      → Alike t (or_else s s') (or_else r r')
  Alike-or_else t done done s' r' h k = k
  Alike-or_else t (raised e) (raised f) s' r' h k = h
  Alike-or_else t (output x s) (output y r) s' r' h k = h
  Alike-or_else t _ _ s' r' h k = absurd h

  module _ (truthy : V → Bool) (first_truthy : truthy first ≡ true)
      (second_truthy : truthy second ≡ true) where
    truthy-Near : (t : Taint) (x y : V) → Near t x y → truthy x ≡ truthy y
    truthy-Near safe x y h = ap truthy h
    truthy-Near context x y (inl h) = ap truthy h
    truthy-Near context x y (inr (h, k)) =
        ap truthy h ∙ first_truthy ∙ sym second_truthy ∙ sym (ap truthy k)

    pub Alike-truthy_only :
        (t : Taint) (s r : Stream V)
        → Alike t s r
        → Alike t (truthy_only truthy s) (truthy_only truthy r)
    unfolding truthy_only
    Alike-truthy_only t done done h = tt
    Alike-truthy_only t (raised e) (raised f) h = tt
    Alike-truthy_only t (output x s) (output y r) (h, hs) =
        let ih = Alike-truthy_only t s r hs in
        elim (Bool-cases (truthy x)) [
          | inl e ↦ rw (e, sym (truthy-Near t x y h) ∙ e) (h, ih)
          | inr e ↦ rw (e, sym (truthy-Near t x y h) ∙ e) ih
        ]
    Alike-truthy_only t _ _ h = absurd h

module _ {V : Type 0} where
  append_assoc : (s r t : Stream V) → append (append s r) t ≡ append s (append r t)
  unfolding append
  append_assoc done r t = refl
  append_assoc (raised e) r t = refl
  append_assoc (output x s) r t = ap (output x) (append_assoc s r t)

  feed-append :
      (s r : Stream V) (f : V → Stream V) → feed (append s r) f ≡ append (feed s f) (feed r f)
  unfolding append feed
  feed-append done r f = refl
  feed-append (raised e) r f = refl
  feed-append (output x s) r f =
      ap (append (f x)) (feed-append s r f) ∙ sym (append_assoc (f x) (feed s f) (feed r f))

  pub feed-feed :
      (s : Stream V) (f g : V → Stream V) → feed (feed s f) g ≡ feed s (λ x. feed (f x) g)
  unfolding feed
  feed-feed done f g = refl
  feed-feed (raised e) f g = refl
  feed-feed (output x s) f g =
      feed-append (f x) (feed s f) g ∙ ap (append (feed (f x) g)) (feed-feed s f g)
