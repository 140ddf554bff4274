-- ===== src/Versioning/Store/Live.antt =====
-- One live document for a kind and a name, and the updates that keep it so.
use tai_skeleton.Base.{
  ℕ, Bool, true, false, ◌&&◌, ◌||◌, not, ◌≡◌, inl, inr, refl, sym, ap, subst, ◌∙◌, List, [], ◌∷◌,
  ◌++◌, String, arith, ◌==◌, ==_iff, nat_eq, string_eq, any, keep, Bool-cases,
}
use tai_skeleton.Versioning.Tables.{Document, is_live, update_documents}
use tai_skeleton.Versioning.Store.Rows.{live_once, any-append}

-- an update that also keeps the kind, the name and the mark
module _ (p : Document → Bool) (f : Document → Document)
    (key_kept : (k n : String) (d : Document) → is_live k n (f d) ≡ is_live k n d) where
  pub any_live-update :
      (k n : String) (ds : List Document)
      → any (is_live k n) (update_documents p f ds) ≡ any (is_live k n) ds
  unfolding any update_documents
  any_live-update k n [] = refl
  any_live-update k n (d ∷ ds) = ground (arith, key_kept k n d, any_live-update k n ds)

any_live-pointer :
    (k n : String) (i v : ℕ) (ds : List Document)
    → any
        (is_live k n)
        (update_documents (λ d. d.id == i) (λ d. record d { active_version = v }) ds)
      ≡ any (is_live k n) ds
any_live-pointer k n i v ds = any_live-update _ _ (λ k n d. refl) k n ds

pub live_once-pointer :
    (i v : ℕ) (ds : List Document)
    → live_once (update_documents (λ d. d.id == i) (λ d. record d { active_version = v }) ds)
      ≡ live_once ds
unfolding live_once update_documents
live_once-pointer i v [] = refl
live_once-pointer i v (d ∷ ds) =
    ground (arith, any_live-pointer d.kind d.name i v ds, live_once-pointer i v ds)

-- documents that are marked deleted are live no more
any_live-deleted :
    (p : Document → Bool) (k n : String) (ds : List Document)
    → any (is_live k n) ds ≡ false
    → any (is_live k n) (update_documents p (λ d. record d { is_active = false }) ds) ≡ false
unfolding any update_documents
any_live-deleted p k n [] h = refl
any_live-deleted p k n (d ∷ ds) h = ground (arith, h, any_live-deleted p k n ds)

pub live_once-deleted :
    (p : Document → Bool) (ds : List Document)
    → live_once ds ≡ true
    → live_once (update_documents p (λ d. record d { is_active = false }) ds) ≡ true
unfolding live_once update_documents
live_once-deleted p [] h = refl
live_once-deleted p (d ∷ ds) h =
    ground (arith, h, any_live-deleted p d.kind d.name ds, live_once-deleted p ds)

any_live-keep :
    (p : Document → Bool) (k n : String) (ds : List Document)
    → any (is_live k n) ds ≡ false
    → any (is_live k n) (keep p ds) ≡ false
unfolding any keep
any_live-keep p k n [] h = refl
any_live-keep p k n (d ∷ ds) h = ground (arith, h, any_live-keep p k n ds)

pub live_once-keep :
    (p : Document → Bool) (ds : List Document) → live_once ds ≡ true → live_once (keep p ds) ≡ true
unfolding live_once keep
live_once-keep p [] h = refl
live_once-keep p (d ∷ ds) h =
    ground (arith, h, any_live-keep p d.kind d.name ds, live_once-keep p ds)

pub live_once-append :
    (ds : List Document) (d : Document)
    → live_once ds ≡ true
    → any (is_live d.kind d.name) ds ≡ false
    → live_once (ds ++ d ∷ []) ≡ true
unfolding live_once any
live_once-append [] d h k = ground arith
live_once-append (e ∷ ds) d h k = ground (
  arith,
  h,
  k,
  any-append (is_live e.kind e.name) ds (d ∷ []),
  live_once-append ds d,
  ==_iff e.kind d.kind,
  ==_iff d.kind e.kind,
  ==_iff e.name d.name,
  ==_iff d.name e.name,
)

or_false_right : (a b : Bool) → (a || b) ≡ false → b ≡ false
or_false_right true b h = cc
or_false_right false b h = h

or_false_left : (a b : Bool) → (a || b) ≡ false → a ≡ false
or_false_left true b h = cc
or_false_left false b h = refl

-- a document that gets a name that no live document has
live-rename :
    (kind name new_name k n : String) (e : Document)
    → (k == kind && n == new_name) ≡ false
    → is_live kind name e ≡ true
    → is_live k n (record e { name = new_name }) ≡ false
live-rename kind name new_name k n e d m =
    elim (Bool-cases (is_live k n (record e { name = new_name }))) [
      | inr f ↦ f
      | inl f ↦
          let e_kind : e.kind ≡ kind = ground (arith, m, ==_iff e.kind kind) in
          let k_kind : e.kind ≡ k = ground (arith, f, ==_iff e.kind k) in
          let n_name : new_name ≡ n = ground (arith, f, ==_iff new_name n) in
          let same_kind : k == kind ≡ true = (==_iff k kind).1 (sym k_kind ∙ e_kind) in
          let same_name : n == new_name ≡ true = (==_iff n new_name).1 (sym n_name) in
          ground (arith, d, same_kind, same_name)
    ]

any_live-rename :
    (kind name new_name k n : String) (ds : List Document)
    → any (is_live k n) ds ≡ false
    → (k == kind && n == new_name) ≡ false
    → any
        (is_live k n)
        (update_documents (is_live kind name) (λ d. record d { name = new_name }) ds)
      ≡ false
unfolding any update_documents
any_live-rename kind name new_name k n [] h d = refl
any_live-rename kind name new_name k n (e ∷ ds) h d =
    let rest = any_live-rename kind name new_name k n ds (or_false_right _ _ h) d in
    elim (Bool-cases (is_live kind name e)) [
      | inl m ↦ rw (m, live-rename kind name new_name k n e d m) rest
      | inr m ↦
          let head = or_false_left (is_live k n e) (any (is_live k n) ds) h in rw (m, head) rest
    ]

update-unmatched :
    (p : Document → Bool) (f : Document → Document) (ds : List Document)
    → any p ds ≡ false
    → update_documents p f ds ≡ ds
unfolding any update_documents
update-unmatched p f [] h = refl
update-unmatched p f (d ∷ ds) h = ground (arith, h, update-unmatched p f ds)

-- a live document stays the only one of its name beside one that is renamed
other_live :
    (kind name new_name : String) (e : Document) (ds : List Document)
    → live_once (e ∷ ds) ≡ true
    → any (is_live kind new_name) (e ∷ ds) ≡ false
    → (e.is_active
        && any
            (is_live e.kind e.name)
            (update_documents (is_live kind name) (λ d. record d { name = new_name }) ds))
      ≡ false
unfolding live_once any
other_live kind name new_name e ds h k = elim (Bool-cases e.is_active) [
  | inr f ↦ ground (arith, f)
  | inl f ↦
      let free = any_live-rename kind name new_name e.kind e.name ds (ground (arith, h, f)) (
        other_name (or_false_left (is_live kind new_name e) (any (is_live kind new_name) ds) k)
          f) in
      ground (arith, free)
]
  where
    other_name :
        is_live kind new_name e ≡ false
        → e.is_active ≡ true
        → (e.kind == kind && e.name == new_name) ≡ false
    other_name a b = ground (arith, a, b)

pub live_once-rename :
    (kind name new_name : String) (ds : List Document)
    → live_once ds ≡ true
    → any (is_live kind new_name) ds ≡ false
    → live_once (update_documents (is_live kind name) (λ d. record d { name = new_name }) ds) ≡ true
unfolding live_once update_documents any
live_once-rename kind name new_name [] h k = refl
live_once-rename kind name new_name (e ∷ ds) h k = elim (Bool-cases (is_live kind name e)) [
  | inl m ↦
      let e_kind : e.kind ≡ kind = ground (arith, m, ==_iff e.kind kind) in
      let e_name : e.name ≡ name = ground (arith, m, ==_iff e.name name) in
      let lone : any (is_live kind name) ds ≡ false =
        subst (λ a. any (is_live a name) ds ≡ false) e_kind
          (subst (λ b. any (is_live e.kind b) ds ≡ false) e_name (ground (arith, h, m))) in
      let free : any (is_live e.kind new_name) ds ≡ false =
        subst (λ a. any (is_live a new_name) ds ≡ false) (sym e_kind) (or_false_right _ _ k) in
      rw (m, update-unmatched (is_live kind name) (λ d. record d { name = new_name }) ds lone)
        (ground (arith, h, free))
  | inr m ↦
      let ih = live_once-rename kind name new_name ds (ground (arith, h)) (or_false_right _ _ k) in
      rw m (ground (arith, h, ih, k, other_live kind name new_name e ds h k))
]

same_name-eq :
    (kind name : String) (e : Document) → is_live kind name e ≡ true → record e { name = name } ≡ e
same_name-eq kind name e m =
    let e_name : e.name ≡ name = ground (arith, m, ==_iff e.name name) in
    ap (λ (n : String). record e { name = n }) (sym e_name)

update-same_name :
    (kind name : String) (ds : List Document)
    → update_documents (is_live kind name) (λ d. record d { name = name }) ds ≡ ds
unfolding update_documents
update-same_name kind name [] = refl
update-same_name kind name (e ∷ ds) =
    let rest = update-same_name kind name ds in
    elim (Bool-cases (is_live kind name e)) [
      | inl m ↦ rw (m, rest) (ap (λ (x : Document). x ∷ ds) (same_name-eq kind name e m))
      | inr m ↦ rw (m, rest) refl
    ]

-- a rename that the unique index lets through
pub live_once-renamed :
    (kind name new_name : String) (ds : List Document)
    → live_once ds ≡ true
    → (any (is_live kind new_name) ds && not (new_name == name)) ≡ false
    → live_once (update_documents (is_live kind name) (λ d. record d { name = new_name }) ds) ≡ true
live_once-renamed kind name new_name ds h k = elim (Bool-cases (new_name == name)) [
  | inl e ↦
      let same : name ≡ new_name = sym ((==_iff new_name name).0 e) in
      subst
        (λ n.
          live_once (update_documents (is_live kind name) (λ d. record d { name = n }) ds) ≡ true)
        same (ap live_once (update-same_name kind name ds) ∙ h)
  | inr e ↦ live_once-rename kind name new_name ds h (ground (arith, k, e))
]
