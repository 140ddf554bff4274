-- ===== src/AccessControl/PathCanon/Canonical.antt =====
-- What a canonical path looks like, and that canonicalising again changes nothing.
use mathlib.Core.List.{reverse, reverse-cons, append_assoc, append-nil}
use tai_skeleton.Base.{
  false, ◌≡◌, ◌≢◌, refl, ap, sym, ◌∙◌, some, List, [], ◌∷◌, ◌++◌, arith, Text, codes, ==_iff,
  nat_eq, list_eq, list_beq, any, All, All-reverse_aux,
}
use tai_skeleton.AccessControl.PathCanon.{
  has_residual_escape, is_bad_byte, split_slash, join_slash, pop, resolve_segment, resolve_segments,
  canonicalize_path,
}
use tai_skeleton.AccessControl.PathCanon.Splitting.{
  NoSlash, split_slash-NoSlash, join_slash-split_slash, split_slash-join_slash,
  has_residual_escape-slash_front, has_residual_escape-join_slash, is_bad_byte-join_slash,
}

-- A segment that names a child: not "", "." or "..", one segment, and of servable characters.
abbrev pub IsSegment : Text → Type 0
IsSegment s =
    (s ≢ [])
    × (s ≢ codes ".")
    × (s ≢ codes "..")
    × NoSlash s
    × (has_residual_escape s ≡ false)
    × (any is_bad_byte s ≡ false)

abbrev pub IsClean : Text → Type 0
IsClean s = NoSlash s × (has_residual_escape s ≡ false) × (any is_bad_byte s ≡ false)

abbrev pub path_of : List Text → Text
path_of segments = b'/' ∷ join_slash segments

IsClean-split_slash :
    (ps : List Text)
    → All NoSlash ps
    → any has_residual_escape ps ≡ false
    → any (any is_bad_byte) ps ≡ false
    → All IsClean ps
unfolding any
IsClean-split_slash [] h e b = tt
IsClean-split_slash (p ∷ ps) (h, hs) e b =
    ((h, ground arith, ground arith), IsClean-split_slash ps hs (ground arith) (ground arith))

All-pop : (ps : List Text) → All IsSegment ps → All IsSegment (pop ps)
All-pop [] h = tt
All-pop (p ∷ ps) (h, hs) = hs

resolve_segment-IsSegment :
    (st : List Text) (s : Text)
    → All IsSegment st
    → IsClean s
    → All IsSegment (resolve_segment st s)
unfolding resolve_segment
resolve_segment-IsSegment st s h k =
    ground (arith, All-pop st h, ==_iff s [], ==_iff s (codes "."), ==_iff s (codes ".."))

resolve_segments-IsSegment :
    (st ps : List Text) → All IsSegment st → All IsClean ps → All IsSegment (resolve_segments st ps)
unfolding resolve_segments
resolve_segments-IsSegment st [] h k = All-reverse_aux IsSegment st [] h tt
resolve_segments-IsSegment st (p ∷ ps) h (k, ks) =
    resolve_segments-IsSegment (resolve_segment st p) ps (resolve_segment-IsSegment st p h k) ks

resolve_segment_of_IsSegment :
    (st : List Text) (s : Text) → IsSegment s → resolve_segment st s ≡ s ∷ st
unfolding resolve_segment
resolve_segment_of_IsSegment st s h =
    ground (arith, ==_iff s [], ==_iff s (codes "."), ==_iff s (codes ".."))

pub resolve_segments_of_IsSegment :
    (st ps : List Text) → All IsSegment ps → resolve_segments st ps ≡ reverse st ++ ps
unfolding resolve_segments
resolve_segments_of_IsSegment st [] h = sym (append-nil _)
resolve_segments_of_IsSegment st (p ∷ ps) (h, hs) =
    ap (λ q. resolve_segments q ps) (resolve_segment_of_IsSegment st p h)
    ∙ resolve_segments_of_IsSegment (p ∷ st) ps hs
    ∙ (simp (reverse-cons, append_assoc))

-- Every path that canonicalises is clean in every part.
pub IsClean-parts :
    (p : Text)
    → has_residual_escape p ≡ false
    → any is_bad_byte p ≡ false
    → All IsClean (split_slash p)
IsClean-parts p e b =
    IsClean-split_slash (split_slash p) (split_slash-NoSlash p)
      (sym (has_residual_escape-join_slash (split_slash p))
        ∙ ap has_residual_escape (join_slash-split_slash p)
        ∙ e)
      (sym (is_bad_byte-join_slash (split_slash p))
        ∙ ap (any is_bad_byte) (join_slash-split_slash p)
        ∙ b)

abbrev pub resolved : Text → List Text
resolved p = resolve_segments [] (split_slash p)

-- What a result of `canonicalize_path` is.
pub canonicalize_path-eq-some :
    (p c : Text)
    → canonicalize_path p ≡ some c
    → (has_residual_escape p ≡ false) × (any is_bad_byte p ≡ false) × (c ≡ path_of (resolved p))
unfolding canonicalize_path
canonicalize_path-eq-some p c h = ground arith

-- A canonical path is a slash and segments joined by single slashes; no segment is empty, "." or
-- "..", and none holds a slash, a residual escape, a control character or a backslash.
pub canonicalize_path-IsCanonical :
    (p c : Text)
    → canonicalize_path p ≡ some c
    → (segments : List Text) × (c ≡ path_of segments) × All IsSegment segments
canonicalize_path-IsCanonical p c h =
    let (e, b, eq) = canonicalize_path-eq-some p c h in
    (resolved p, eq, resolve_segments-IsSegment [] (split_slash p) tt (IsClean-parts p e b))

any-of_IsSegment :
    (ps : List Text)
    → All IsSegment ps
    → (any has_residual_escape ps ≡ false) × (any (any is_bad_byte) ps ≡ false)
unfolding any
any-of_IsSegment [] h = (refl, refl)
any-of_IsSegment (p ∷ ps) (h, hs) = ground (arith, any-of_IsSegment ps hs)

pub All-NoSlash : (ps : List Text) → All IsSegment ps → All NoSlash ps
All-NoSlash [] h = tt
All-NoSlash (p ∷ ps) (h, hs) = (h.3, All-NoSlash ps hs)

resolved-path_of : (ps : List Text) → All IsSegment ps → resolved (path_of ps) ≡ ps
unfolding resolve_segments resolve_segment split_slash join_slash list_beq
resolved-path_of [] h = refl
resolved-path_of (p ∷ ps) h =
    ap (resolve_segments []) (split_slash-join_slash (p ∷ ps) (All-NoSlash (p ∷ ps) h) (λ x. cc))
    ∙ resolve_segments_of_IsSegment [] (p ∷ ps) h

has_residual_escape-path_of :
    (ps : List Text) → All IsSegment ps → has_residual_escape (path_of ps) ≡ false
has_residual_escape-path_of ps h =
    has_residual_escape-slash_front (join_slash ps)
    ∙ has_residual_escape-join_slash ps
    ∙ (any-of_IsSegment ps h).0

is_bad_byte-path_of : (ps : List Text) → All IsSegment ps → any is_bad_byte (path_of ps) ≡ false
unfolding any is_bad_byte
is_bad_byte-path_of ps h = is_bad_byte-join_slash ps ∙ (any-of_IsSegment ps h).1

pub canonicalize_path-path_of :
    (ps : List Text) → All IsSegment ps → canonicalize_path (path_of ps) ≡ some (path_of ps)
unfolding canonicalize_path
canonicalize_path-path_of ps h =
    ground
      (arith, has_residual_escape-path_of ps h, is_bad_byte-path_of ps h, resolved-path_of ps h)

-- A canonical path is its own canonical form, so every tier of the gate decides on one text.
pub canonicalize_path_idempotent :
    (p c : Text) → canonicalize_path p ≡ some c → canonicalize_path c ≡ some c
canonicalize_path_idempotent p c h =
    let (segments, e, good) = canonicalize_path-IsCanonical p c h in
    rw e (canonicalize_path-path_of segments good)
