-- ===== src/Router/Segments.antt =====
-- `split_path` cuts a path into its non-empty pieces.
use cpp_url_shortener.Common.{
  ◌≡◌, refl, ap, ◌∙◌, ◌≢◌, false, List, [], ◌∷◌, ◌++◌, append_assoc, append-nil, arith, ◌==◌, All,
  Bytes,
}
use cpp_url_shortener.Router.{split_from, split_path}

abbrev pub LacksSlash : Bytes → Type 0
LacksSlash = All (λ c. c ≢ b'/')

-- `/a/b/c`
unfoldable pub join_segments : List Bytes → Bytes
join_segments [] = []
join_segments (seg ∷ segs) = b'/' ∷ (seg ++ join_segments segs)

abbrev pub IsSegment : Bytes → Type 0
IsSegment seg = (seg ≢ []) × LacksSlash seg

split_from-piece :
    (seg rest cur : Bytes)
    → LacksSlash seg
    → split_from (seg ++ rest) cur ≡ split_from rest (cur ++ seg)
unfolding split_from
split_from-piece [] rest cur h = rw append-nil
split_from-piece (c ∷ seg) rest [] h =
    let other : (c == b'/') ≡ false = ground arith in
    rw (other, split_from) (split_from-piece seg rest (c ∷ []) h.1)
split_from-piece (c ∷ seg) rest (d ∷ cur) h =
    let other : (c == b'/') ≡ false = ground arith in
    rw (other, split_from)
      (split_from-piece seg rest ((d ∷ cur) ++ c ∷ []) h.1
        ∙ ap (split_from rest) (append_assoc (d ∷ cur) (c ∷ []) seg))

split_from_full :
    (segs : List Bytes) (seg : Bytes)
    → seg ≢ []
    → All IsSegment segs
    → split_from (join_segments segs) seg ≡ seg ∷ segs
unfolding split_from join_segments
split_from_full [] [] ne h = absurd (ne refl)
split_from_full [] (d ∷ seg) ne h = refl
split_from_full (s ∷ segs) [] ne h = absurd (ne refl)
split_from_full (s ∷ segs) (d ∷ seg) ne h =
    ap (◌∷◌ (d ∷ seg))
      (split_from-piece s (join_segments segs) [] h.0.1 ∙ split_from_full segs s h.0.0 h.1)

-- The segments of a path, each non-empty and free of slashes, are read back from the path.
pub split_path-join_segments :
    (segs : List Bytes) → All IsSegment segs → split_path (join_segments segs) ≡ segs
unfolding split_path split_from join_segments
split_path-join_segments [] h = refl
split_path-join_segments (s ∷ segs) h =
    split_from-piece s (join_segments segs) [] h.0.1 ∙ split_from_full segs s h.0.0 h.1
